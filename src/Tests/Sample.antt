-- ===== src/Tests/Sample.antt =====
-- Two users, eight reviews of one film whose average is an even tie, and one token of each kind.
use backlogg.Prelude.{ℕ, Bool, true, false, String, List, [], ◌∷◌, none, some}
use backlogg.Db.Tables.{
  movie, Item, User, UserRating, RefreshToken, AccountToken, password_reset, Table, Db,
}
use backlogg.Users.Sessions.{Security}

abbrev pub user : ℕ → String → Bool → User
user id name superadmin = record {
  id = id;
  username = name;
  email = name;
  password_hash = "old";
  display_name = none;
  bio = none;
  avatar_url = none;
  email_verified = false;
  is_banned = false;
  is_admin = false;
  is_superadmin = superadmin;
}

abbrev pub ana : User
ana = user 1 "ana" false

abbrev pub ben : User
ben = user 2 "ben" true

abbrev pub review : ℕ → ℕ → ℕ → UserRating
review id author score = record {
  id = id;
  user_id = author;
  item_type = movie;
  item_id = 7;
  score = some score;
  review_text = none;
  is_hidden = false;
}

abbrev pub alien : Item
alien = record {
  item_type = movie;
  id = 7;
  title = "Alien";
  slug = "alien-1979";
  rating_internal = none;
  rating_count_internal = 0;
}

abbrev pub no_rows : {A : Type 0} → Table A
no_rows = record { rows = []; next_id = 1 }

abbrev pub session_token : RefreshToken
session_token = record {
  id = 1;
  user_id = 1;
  token_hash = "r1";
  expires_at = 100;
  revoked_at = none;
}

abbrev pub reset_token : AccountToken
reset_token = record {
  id = 1;
  user_id = 1;
  token_hash = "a1";
  purpose = password_reset;
  expires_at = 100;
  consumed_at = none;
}

abbrev pub start : Db
start = record {
  items = alien ∷ [];
  users = record { rows = ana ∷ ben ∷ []; next_id = 3 };
  user_ratings = no_rows;
  review_likes = no_rows;
  review_reports = no_rows;
  activity_events = no_rows;
  follows = no_rows;
  library_entries = no_rows;
  notifications = no_rows;
  refresh_tokens = record { rows = session_token ∷ []; next_id = 2 };
  account_tokens = record { rows = reset_token ∷ []; next_id = 2 };
  admin_actions = no_rows;
}

-- Nine stars over eight reviews: the average is 1.125.
abbrev pub tied_reviews : List UserRating
tied_reviews =
    review 1 1 20
    ∷ review 2 1 10
    ∷ review 3 1 10
    ∷ review 4 1 10
    ∷ review 5 1 10
    ∷ review 6 1 10
    ∷ review 7 1 10
    ∷ review 8 1 10
    ∷ []

abbrev pub tied : Db
tied = record start { user_ratings = record { rows = tied_reviews; next_id = 9 } }

-- Hashing is the identity; a bearer token is the name of its user.
abbrev pub toy : Security
toy = record {
  hash_password = λ p. p;
  verify_password = λ p h. true;
  hash_token = λ t. t;
  create_access_token = λ now i. "jwt";
  decode_subject = λ now t. some 1;
  refresh_expire = 50;
}
