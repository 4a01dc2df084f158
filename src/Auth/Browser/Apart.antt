-- ===== src/Auth/Browser/Apart.antt =====
-- Browser sessions leave the device authorizations and the setup grants as they are.
use sme_data_center.Common.{ℕ, arith}
use sme_data_center.Auth.Schema.{Db, create_browser_session}
use sme_data_center.Auth.History.{after}
use sme_data_center.Auth.Sessions.Apart.{IsApart}
use sme_data_center.Auth.Browser.{BrowserInput, create_browser, revoke_browser}

pub create_browser-IsApart :
    (hash : ℕ → ℕ) (input : BrowserInput) (db : Db)
    → IsApart db (after db (create_browser hash input db))
unfolding create_browser create_browser_session
create_browser-IsApart hash input db = ground arith

pub revoke_browser-IsApart :
    (secret_hash now : ℕ) (db : Db) → IsApart db (revoke_browser secret_hash now db)
unfolding revoke_browser
revoke_browser-IsApart secret_hash now db = ground arith
