-- ===== src/Metadata/Record.antt =====
-- internal/metadata/store.go: the data types. A time is a number of nanoseconds, and 0 is Go's zero time.
use warpbox.Base.{ℕ, [], ◌≡◌, ◌↔◌, Bool, true, false, ◌&&◌, arith}
use warpbox.Base.Int.{ℤ, pos, eq_int, eq_int_sound, eq_int_refl}
use warpbox.Base.Text.{Text, text_eq, text_eq_iff}
use warpbox.Base.Assoc.{KeyEq}

pub data FileSource : Type 0 where
  torrent usenet : FileSource

pub record FileRecord : Type 0 where
  pub id : ℕ
  pub item_id : ℤ
  pub file_id : ℤ
  pub source : FileSource
  pub name : Text
  pub path : Text
  pub size : ℤ
  pub mime_type : Text
  pub created_at : Text
  pub cdn_url : Text
  pub cdn_url_expiry : Text
  pub sync_tag : ℤ

-- The zero value of the struct.
abbrev pub zero_record : FileRecord
zero_record = record {
  id = 0;
  item_id = pos 0;
  file_id = pos 0;
  source = torrent;
  name = [];
  path = [];
  size = pos 0;
  mime_type = [];
  created_at = [];
  cdn_url = [];
  cdn_url_expiry = [];
  sync_tag = pos 0;
}

abbrev pub source_eq : FileSource → FileSource → Bool
source_eq torrent torrent = true
source_eq torrent usenet = false
source_eq usenet torrent = false
source_eq usenet usenet = true

pub source_eq_iff : (a b : FileSource) → (source_eq a b ≡ true) ↔ (a ≡ b)
source_eq_iff a b = ground arith

pub eq_int_iff : (a b : ℤ) → (eq_int a b ≡ true) ↔ (a ≡ b)
eq_int_iff a b = (eq_int_sound a b, λ p. cc (p, eq_int_refl a))

-- An item of TorBox: its source and its id.
pub record ItemKey : Type 0 where
  pub source : FileSource
  pub item_id : ℤ

abbrev pub item_key_eq : ItemKey → ItemKey → Bool
item_key_eq a b = source_eq a.source b.source && eq_int a.item_id b.item_id

pub item_key_eq_iff : (a b : ItemKey) → (item_key_eq a b ≡ true) ↔ (a ≡ b)
item_key_eq_iff a b =
    ground (arith, source_eq_iff a.source b.source, eq_int_iff a.item_id b.item_id)

instance abbrev pub item_key_keys : KeyEq ItemKey
item_key_keys = record { eqb = item_key_eq; eqb_iff = item_key_eq_iff }

instance abbrev pub text_keys : KeyEq Text
text_keys = record { eqb = text_eq; eqb_iff = text_eq_iff }

instance abbrev pub int_keys : KeyEq ℤ
int_keys = record { eqb = eq_int; eqb_iff = eq_int_iff }
