-- ===== src/Auth/Browser/Frame.antt =====
-- Browser sessions leave the tables of the other sessions alone.
use sme_data_center.Common.{ℕ, arith}
use sme_data_center.Auth.Schema.{Db, create_browser_session}
use sme_data_center.Auth.Sessions.Family.{Untouched}
use sme_data_center.Auth.History.{after}
use sme_data_center.Auth.Browser.{BrowserInput, create_browser, revoke_browser}

pub create_browser-Untouched :
    (hash : ℕ → ℕ) (input : BrowserInput) (db : Db)
    → Untouched db (after db (create_browser hash input db))
unfolding create_browser create_browser_session
create_browser-Untouched hash input db = ground arith

pub revoke_browser-Untouched :
    (secret_hash now : ℕ) (db : Db) → Untouched db (revoke_browser secret_hash now db)
unfolding revoke_browser
revoke_browser-Untouched secret_hash now db = ground arith
