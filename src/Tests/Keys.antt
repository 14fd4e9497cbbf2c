-- ===== src/Tests/Keys.antt =====
-- Runs of service/services/auth_service.py.
use url_copilot.Prelude.{String, [], false, none, ok, refl, some, true, ◌∷◌, ◌≡◌}
use url_copilot.Service.Db.{Db, User}
use url_copilot.Service.Accounts.{
  Issued, add_api_key, add_user, generate_api_key, get_user_by_api_key, register_user,
  rotate_api_key,
}
use url_copilot.Service.Accounts.Keys.{authenticate}
use url_copilot.Service.Accounts.Rotation.{rotate_api_key_effect}
use url_copilot.Tests.Links.{alice, db}

abbrev digest : String → String
digest s = s

authenticates : (get_user_by_api_key digest 50 db "sk_one").0 ≡ some alice
unfolding get_user_by_api_key
authenticates = refl

abbrev rotated_db : Db
rotated_db = record db {
  api_keys =
      record {
        id = 2;
        user_id = 7;
        key_hash = "sk_two";
        key_prefix = "sk_two";
        is_active = true;
        last_used_at = none;
      }
      ∷ record {
        id = 1;
        user_id = 7;
        key_hash = "sk_one";
        key_prefix = "sk_one";
        is_active = false;
        last_used_at = none;
      }
      ∷ [];
}

abbrev second_key : Issued
second_key = record { raw_key = "sk_two"; key_hash = "sk_two"; key_prefix = "sk_two" }

rotates : rotate_api_key digest "two" 2 db alice ≡ ok (second_key, rotated_db)
unfolding rotate_api_key generate_api_key add_api_key
rotates = refl

old_key : authenticate digest db "sk_one" ≡ some alice
unfolding authenticate
old_key = refl

rotate_api_key_effect_example :
    (authenticate digest rotated_db "sk_two" ≡ some alice)
    × (authenticate digest rotated_db "sk_one" ≡ none)
rotate_api_key_effect_example =
    rotate_api_key_effect digest "two" 2 db alice second_key rotated_db rotates refl (tt, tt)
      "sk_one" alice old_key

abbrev carol : User
carol = record { id = 9; email = "carol@a.io"; is_active = true }

abbrev registered_db : Db
registered_db = record db {
  users = carol ∷ db.users;
  api_keys =
      record {
        id = 2;
        user_id = 9;
        key_hash = "sk_two";
        key_prefix = "sk_two";
        is_active = true;
        last_used_at = none;
      }
      ∷ db.api_keys;
}

registers : register_user digest "two" 9 2 db "carol@a.io" ≡ ok (carol, second_key, registered_db)
unfolding register_user generate_api_key add_user add_api_key
registers = refl
