-- ===== src/Auth/Schema/Sample.antt =====
-- A database with one account, for the runs of the other modules.
use sme_data_center.Common.{none, some, [], ◌∷◌, false}
use sme_data_center.Auth.Schema.{
  admin, Employee, LoginIdentity, SetupGrant, SetupSession, password_reset, active, AuthSession,
  current, DurableCredential, AccessToken, completed, DeviceAuthorization, Db,
}

abbrev pub owner : Employee
owner = record {
  id = 7;
  org_id = 3;
  organization_name = 30;
  display_name = 70;
  email = 71;
  role = admin;
  clearance = 2;
  disabled = false;
}

abbrev pub identity : LoginIdentity
identity = record {
  id = 5;
  org_id = 3;
  employee_id = 7;
  normalized_email = 71;
  password_hash = some 9;
  disabled = false;
  failed_attempt_count = 4;
  cooldown_level = 0;
  cooldown_until = none;
}

abbrev pub grant : SetupGrant
grant = record {
  id = 60;
  identity_id = 5;
  purpose = password_reset;
  token_hash = 61;
  expires_at = 5000;
  used_at = some 10;
  revoked_at = none;
}

abbrev pub setup_session : SetupSession
setup_session = record {
  id = 65;
  identity_id = 5;
  grant_id = 60;
  session_hash = 66;
  expires_at = 5000;
  consumed_at = none;
  revoked_at = none;
}

abbrev pub session : AuthSession
session = record {
  id = 1;
  identity_id = 5;
  employee_id = 7;
  org_id = 3;
  status = active;
  absolute_expires_at = 1000000;
  revoked_at = none;
  revocation_reason = none;
}

abbrev pub credential : DurableCredential
credential = record {
  id = 10;
  session_id = 1;
  credential_hash = 11;
  generation = 1;
  status = current;
  consumed_at = none;
  revoked_at = none;
}

abbrev pub token : AccessToken
token = record {
  id = 20;
  session_id = 1;
  identity_id = 5;
  employee_id = 7;
  org_id = 3;
  token_hash = 21;
  expires_at = 2000;
  revoked_at = none;
  last_used_at = none;
}

abbrev pub device : DeviceAuthorization
device = record {
  id = 40;
  client_id = 41;
  device_code_hash = 42;
  user_code_hash = 43;
  status = completed;
  instance_name = 44;
  instance_hostname = 45;
  identity_id = some 5;
  employee_id = some 7;
  org_id = some 3;
  expires_at = 3000;
  completed_at = some 50;
  redeemed_at = none;
  revoked_at = none;
}

abbrev pub sample : Db
sample = record {
  employees = owner ∷ [];
  identities = identity ∷ [];
  grants = grant ∷ [];
  setup_sessions = setup_session ∷ [];
  browser_sessions = [];
  sessions = session ∷ [];
  credentials = credential ∷ [];
  tokens = token ∷ [];
  devices = device ∷ [];
  events = [];
}
