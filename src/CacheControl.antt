-- ===== src/CacheControl.antt =====
-- src/cache_control.h and cache_control.cpp: the directives of the header field Cache-Control, the age of a
-- response, and when a request asks for a revalidation. Times are values of the library's clock, and a
-- duration is its number of seconds.
pub mod Operations
pub mod Fetch
pub mod Cacheable
use ouinet.Prelude.{
  ℕ, Bool, true, false, not, ◌&&◌, ◌||◌, List, [], ◌∷◌, Option, none, some, Bytes, codes, any, ltb,
  ◌==◌, if◌then◌else◌,
}
use ouinet.Prelude.Int.{ℤ, pos, negsuc, int_eq}
use ouinet.Parse.Number.{Width, four_bytes, eight_bytes, number, signed_number}
use ouinet.Http.{
  Field, cache_control, expires, warning, if_none_match, Fields, find_field, RequestHeader,
  ResponseHeader, Library,
}
use ouinet.Http.Split.{split_string, split_string_pair, trim_front, trim_back}
use ouinet.Http.Injection.{http_injection_field, parse_date}

-- `Session`: the header of a response, and its body, which is read later.
pub record Session : Type 0 where
  pub header : ResponseHeader
  pub body : Bytes

abbrev pub trim_quotes : Bytes → Bytes
trim_quotes v = trim_back b'"' (trim_front b'"' v)

-- `if (!max_age || *max_age < *opt_delta) max_age = *opt_delta;`.
abbrev pub greater_age : Option ℕ → ℕ → Option ℕ
greater_age none delta = some delta
greater_age (some age) delta = if ltb age delta then some delta else some age

abbrev pub keep_age : Option ℕ → Option ℕ → Option ℕ
keep_age age none = age
keep_age age (some delta) = greater_age age delta

abbrev pub first_of : Option ℕ → Option ℕ → Option ℕ
first_of (some a) b = some a
first_of none b = b

abbrev pub is_zero : Option ℕ → Bool
is_zero none = false
is_zero (some n) = n == 0

abbrev pub is_present : Option Bytes → Bool
is_present none = false
is_present (some v) = true

module _ (lib : Library) where
  pub record CacheEntry : Type 0 where
    pub time_stamp : lib.Time
    pub response : Session

  -- The items of Cache-Control, of which there are none without the field.
  unfoldable pub directives : Fields → List Bytes
  directives fields = elim (find_field fields cache_control) [
    | none ↦ []
    | some v ↦ split_string v b','
  ]

  unfoldable pub has_cache_control_directive : Fields → Bytes → Bool
  has_cache_control_directive fields directive =
      any (λ kv. lib.iequals kv directive) (directives fields)

  unfoldable pub update_max_age : Option ℕ → Bytes → Option ℕ
  update_max_age max_age value =
      let v = trim_quotes value in keep_age max_age (number four_bytes (lib.byte_behind v) v).0

  -- The loop over the items, with `s_maxage` and `max_age`.
  unfoldable pub max_ages : List Bytes → Option ℕ → Option ℕ → Option ℕ × Option ℕ
  unfolding update_max_age
  max_ages [] s_maxage max_age = (s_maxage, max_age)
  max_ages (kv ∷ items) s_maxage max_age =
      let (key, value) = split_string_pair kv b'=' in
      max_ages items
        (if lib.iequals key (codes "s-maxage") then update_max_age s_maxage value else s_maxage)
        (if lib.iequals key (codes "max-age") then update_max_age max_age value else max_age)

  unfoldable pub get_max_age : Bytes → Option ℕ
  unfolding max_ages
  get_max_age cache_control_value =
      let (s_maxage, max_age) = max_ages (split_string cache_control_value b',') none none in
      first_of s_maxage max_age

  unfoldable pub http10_is_expired : ResponseHeader → lib.Time → Bool
  http10_is_expired response now = elim (find_field response.fields expires) [
    | none ↦ true
    | some v ↦
        let exp_date = parse_date lib v in
        if lib.is_date exp_date then lib.before exp_date now else true
  ]

  -- `now() > time_stamp + seconds(*max_age)`.
  abbrev pub max_age_is_expired : Option ℕ → ResponseHeader → lib.Time → lib.Time → Bool
  max_age_is_expired none response time_stamp now = http10_is_expired response now
  max_age_is_expired (some max_age) response time_stamp now =
      lib.before (lib.plus_seconds time_stamp max_age) now

  unfoldable pub is_expired : ResponseHeader → lib.Time → lib.Time → Bool
  unfolding http10_is_expired
  is_expired response time_stamp now = elim (find_field response.fields cache_control) [
    | none ↦ http10_is_expired response now
    | some v ↦ max_age_is_expired (get_max_age v) response time_stamp now
  ]

  -- -1 second stands for no limit.
  unfoldable pub is_older_than_max_cache_age : ℤ → lib.Time → lib.Time → Bool
  is_older_than_max_cache_age max_cached_age time_stamp now =
      not (int_eq max_cached_age (negsuc 0)) && lib.older_than now time_stamp max_cached_age

  unfoldable pub add_warning : Session → Bytes → Session
  add_warning s value = record s {
    header = record s.header { fields = lib.insert_field s.header.fields warning value };
  }

  abbrev pub add_stale_warning : Session → Session
  add_stale_warning response = add_warning response (codes "110 Ouinet \"Response is stale\"")

  unfoldable pub must_revalidate : RequestHeader → Bool
  must_revalidate request =
      is_present (find_field request.fields if_none_match)
      || (elim (find_field request.fields cache_control) [
        | none ↦ false
        | some v ↦
            is_zero (get_max_age v)
            || any (λ kv. lib.iequals kv (codes "no-cache") || lib.iequals kv (codes "no-store"))
                (split_string v b',')
      ])

  -- `302 Found` and `307 Temporary Redirect`.
  unfoldable pub has_temporary_result : Session → Bool
  has_temporary_result rs = (rs.header.status == 302) || (rs.header.status == 307)

  -- The time of the injection.
  unfoldable pub injection_time : ResponseHeader → lib.Time
  injection_time header =
      let tsh = http_injection_field lib header (codes "ts") in
      elim (signed_number eight_bytes (lib.byte_behind tsh) tsh).0 [
        | none ↦ lib.not_a_date_time
        | some ts ↦ lib.from_time_t ts
      ]
