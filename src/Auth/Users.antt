-- ===== src/Auth/Users.antt =====
-- The users of packages/api/src/modules/auth/services/users.service.ts: the columns and the methods
-- that the authentication uses.
use kalam_network.Prelude.{Text, Option, none, some, List, ◌==◌, if◌then◌else◌, is_truthy}
use kalam_network.Repo.{find_one, find_key, save, delete_where, column_is}

pub data AccountStatus : Type 0 where
  registered pending_wallet pending_kyc active suspended : AccountStatus

pub record Account : Type 0 where
  pub id : Text
  pub email : Option Text
  pub phone : Option Text
  pub hedera_account_id : Option Text
  pub status : AccountStatus

-- `create({ email })`, with the identifier that `uuidv4` draws.
abbrev pub new_account : Text → Text → Account
new_account id email = record {
  id = id;
  email = some email;
  phone = none;
  hedera_account_id = none;
  status = pending_wallet;
}

unfoldable pub create : Account → List Account → List Account
create a accounts = save Account.id a accounts

-- `findByEmailOrPhone(email)`
unfoldable pub find_by_email : Text → List Account → Option Account
find_by_email email accounts =
    if is_truthy email then find_one (λ a. column_is a.email email) accounts else none

-- `findById`
unfoldable pub find_by_id : Text → List Account → Option Account
find_by_id id accounts = find_key Account.id id accounts

-- `delete`
unfoldable pub delete : Text → List Account → List Account
delete id accounts = delete_where (λ a. a.id == id) accounts
