-- ===== src/Http.antt =====
-- HTTP messages as the cache reads them. Boost.Beast's headers are lists of fields here, each with its
-- enumerator (`http::field`), its name and its value; `find` is Beast's, which returns the first field
-- with the enumerator. What Boost does beyond that is the record `Library`: the comparison of texts without
-- case, the insertion of fields, dates and the clock's arithmetic.
pub mod Split
pub mod Injection
pub mod Ranges
use ouinet.Prelude.{
  ℕ, Bool, true, false, List, [], ◌∷◌, Option, none, some, Bytes, ◌==◌, if◌then◌else◌,
}
use ouinet.Prelude.Int.{ℤ}

-- The enumerators of `http::field` that the code names; `unknown` is for every other one.
pub data Field : Type 0 where
  cache_control expires warning etag if_none_match authorization : Field
  host user_agent accept accept_language accept_encoding from origin : Field
  keep_alive connection referer proxy_connection te : Field
  unknown : Field

abbrev pub field_number : Field → ℕ
field_number unknown = 0
field_number cache_control = 1
field_number expires = 2
field_number warning = 3
field_number etag = 4
field_number if_none_match = 5
field_number authorization = 6
field_number host = 7
field_number user_agent = 8
field_number accept = 9
field_number accept_language = 10
field_number accept_encoding = 11
field_number from = 12
field_number origin = 13
field_number keep_alive = 14
field_number connection = 15
field_number referer = 16
field_number proxy_connection = 17
field_number te = 18

abbrev pub same_field : Field → Field → Bool
same_field f g = field_number f == field_number g

pub record HeaderField : Type 0 where
  pub field : Field
  pub name : Bytes
  pub value : Bytes

abbrev pub Fields : Type 0
Fields = List HeaderField

unfoldable pub find_field : Fields → Field → Option Bytes
find_field [] f = none
find_field (h ∷ hs) f = if same_field h.field f then some h.value else find_field hs f

pub data Verb : Type 0 where
  get_verb head_verb other_verb : Verb

abbrev pub is_get : Verb → Bool
is_get get_verb = true
is_get head_verb = false
is_get other_verb = false

-- `http::request_header<>` and `http::response_header<>`.
pub record RequestHeader : Type 0 where
  pub method : Verb
  pub target : Bytes
  pub fields : Fields

pub record ResponseHeader : Type 0 where
  pub status : ℕ
  pub fields : Fields

pub record Library : Type 1 where
  -- `boost::iequals` and `string_view::starts_with`.
  pub iequals : Bytes → Bytes → Bool
  pub starts_with : Bytes → Bytes → Bool
  -- `fields::insert` and `fields::set`.
  pub insert_field : Fields → Field → Bytes → Fields
  pub set_field : Fields → Field → Bytes → Fields
  -- `posix_time::ptime` with its special value, `from_time_t`, `<`, the sum with seconds and the
  -- comparison of a difference with a number of seconds.
  pub Time : Type 0
  pub not_a_date_time : Time
  pub from_time_t : ℤ → Time
  pub before : Time → Time → Bool
  pub plus_seconds : Time → ℕ → Time
  pub older_than : Time → Time → ℤ → Bool
  -- `is >> pt` with the two formats, and `pt != ptime()`.
  pub read_date : Bool → Bytes → Time
  pub is_date : Time → Bool
  -- The byte that lies behind a view in memory.
  pub byte_behind : Bytes → ℕ
