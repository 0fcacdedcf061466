-- ===== src/Message.antt =====
-- src/types.rs: the messages and rooms that the pollers handle. A date is an instant as in `State`, and a
-- JSON value is its text.
use webex_headless_messenger.Common.{ℕ, String, Bool, Option, List}

pub record Message : Type 0 where
  pub id : Option String
  pub parent_id : Option String
  pub room_id : Option String
  pub room_type : Option String
  pub to_person_id : Option String
  pub to_person_email : Option String
  pub text : Option String
  pub markdown : Option String
  pub html : Option String
  pub files : List String
  pub attachments : List String
  pub person_id : Option String
  pub person_email : Option String
  pub mentioned_people : List String
  pub mentioned_groups : List String
  pub created : Option ℕ
  pub updated : Option ℕ
  pub is_voice_clip : Option Bool

pub record Room : Type 0 where
  pub id : Option String
  pub title : Option String
  pub room_type : Option String
  pub is_locked : Option Bool
  pub team_id : Option String
  pub last_activity : Option ℕ
  pub creator_id : Option String
  pub created : Option ℕ
  pub owner_id : Option String
  pub classification_id : Option String
  pub is_announcement_only : Option Bool
  pub is_read_only : Option Bool
  pub is_public : Option Bool
  pub made_public : Option ℕ
  pub description : Option String

-- src/pagination.rs: a page of a collection, with the link to the next one.
pub record Page {ℓ} (A : Type ℓ) : Type ℓ where
  pub items : List A
  pub next : Option String
