-- ===== src/Guard/Reset.antt =====
-- internal/guard/observe.go: the reset time that a 429 response announces, and explicit exhaustion.
-- The parsers and the arithmetic of float64 belong to the standard library; the model takes them
-- as a record of functions.
use cpa_antigravity_quota_gu.Prelude.{
  ℕ, ◌*◌, Bool, true, false, ◌&&◌, ◌||◌, not, Option, none, some, List, [], ◌∷◌, ltb, if◌then◌else◌,
  pos, ltb_ℤ, Text, codes, is_empty, trim_space, to_lower, contains, replace_rune, byte_len,
  take_bytes, Dict, lookup,
}
use cpa_antigravity_quota_gu.Guard.Types.{
  Time, Duration, add_time, Float64, pos_inf, neg_inf, finite, float_one,
}

-- A value of encoding/json. The fields of an object come in the order in which Go's map hands
-- them out.
mutual
  pub data Json : Type 0 where
    null : Json
    boolean : Bool → Json
    text : Text → Json
    number : Float64 → Json
    array : Items → Json
    object : Fields → Json

  pub data Items : Type 0 where
    no_items : Items
    item : Json → Items → Items

  pub data Fields : Type 0 where
    no_fields : Fields
    field : Text → Json → Fields → Fields

-- `seconds x` is time.Duration(x * float64(time.Second)), `unix x` is time.Unix(int64(x), 0).
pub record Parsers : Type 0 where
  pub rfc3339 : Text → Option Time
  pub http_time : Text → Option Time
  pub duration : Text → Option Duration
  pub parse_float : Text → Option Float64
  pub seconds : Float64 → Duration
  pub unix : Float64 → Time
  pub div_1000 : Float64 → Float64
  pub decode : Text → Option Json

abbrev pub max_inspected_failure_body : ℕ
max_inspected_failure_body = 65536

unfoldable pub inspected_body : Text → Text
unfolding byte_len take_bytes
inspected_body body =
    if ltb max_inspected_failure_body (byte_len body)
    then take_bytes max_inspected_failure_body body
    else body

unfoldable pub explicit_quota_exhaustion : Text → Bool
unfolding to_lower inspected_body contains
explicit_quota_exhaustion body =
    let text = to_lower (inspected_body body) in
    let has_quota =
      contains text (codes "quota")
      || contains text (codes "usage limit")
      || contains text (codes "usage_limit") in
    let has_exhaustion =
      contains text (codes "exhaust")
      || contains text (codes "exceed")
      || contains text (codes "deplet")
      || contains text (codes "no remaining")
      || contains text (codes "limit reached")
      || contains text (codes "limit_reached")
      || contains text (codes "insufficient") in
    if is_empty text then false else has_quota && has_exhaustion

-- `number > k` and `number < k` for a float64 and a whole number k.
abbrev float_above : Float64 → ℕ → Bool
float_above (finite z) k = ltb_ℤ (pos (k * float_one)) z
float_above pos_inf k = true
float_above _ k = false

abbrev float_below : Float64 → ℕ → Bool
float_below (finite z) k = ltb_ℤ z (pos (k * float_one))
float_below neg_inf k = true
float_below _ k = false

-- `math.IsNaN(x) || math.IsInf(x, 0)`
abbrev pub not_finite : Float64 → Bool
not_finite (finite _) = false
not_finite _ = true

module _ (p : Parsers) where
  unfoldable pub parse_reset_number : Float64 → Text → Time → Option Time
  unfolding to_lower contains
  parse_reset_number x key now =
      let lower_key = to_lower key in
      if not_finite x || not (float_above x 0)
      then none
      else if contains lower_key (codes "after")
          || contains lower_key (codes "delay")
          || float_below x 100000000
      then some (add_time now (p.seconds x))
      else some (p.unix (if float_above x 100000000000 then p.div_1000 x else x))

  parse_as_number : Option Float64 → Text → Time → Option Time
  unfolding parse_reset_number
  parse_as_number none key now = none
  parse_as_number (some x) key now = parse_reset_number x (to_lower key) now

  parse_as_duration : Option Duration → Option Time → Time → Option Time
  parse_as_duration none other now = other
  parse_as_duration (some d) other now = if ltb_ℤ (pos 0) d then some (add_time now d) else other

  abbrev first_some : Option Time → Option Time → Option Time
  first_some none other = other
  first_some (some t) other = some t

  unfoldable pub parse_reset_value : Text → Text → Time → Option Time
  unfolding trim_space parse_as_number parse_as_duration
  parse_reset_value value key now =
      let v = trim_space value in
      if is_empty v
      then none
      else first_some (p.rfc3339 v) (
          first_some (p.http_time v)
            (parse_as_duration (p.duration v) (parse_as_number (p.parse_float v) key now) now))

  -- `parseResetValueAny`. A decoder that fills an `any` makes each number a float64, so the case
  -- of json.Number is not met.
  unfoldable pub parse_reset_value_any : Json → Text → Time → Option Time
  unfolding parse_reset_value parse_reset_number
  parse_reset_value_any (text s) key now = parse_reset_value s key now
  parse_reset_value_any (number x) key now = parse_reset_number x key now
  parse_reset_value_any _ key now = none

  -- `ok && parsed.After(now)`
  abbrev after_now : Option Time → Time → Option Time
  after_now none now = none
  after_now (some t) now = if ltb now t then some t else none

  reset_key : Text → Bool
  unfolding contains
  reset_key key =
      contains key (codes "reset")
      || contains key (codes "retry_after")
      || contains key (codes "retrydelay")

  abbrev normalized_key : Text → Text
  normalized_key key = to_lower (replace_rune b' ' b'_' (replace_rune b'-' b'_' key))

  -- The first loop over an object: the fields that name a reset.
  unfoldable pub find_direct : Fields → Time → Option Time
  unfolding reset_key parse_reset_value_any to_lower replace_rune
  find_direct no_fields now = none
  find_direct (field key child rest) now =
      let k = normalized_key key in
      first_some (if reset_key k then after_now (parse_reset_value_any child k now) now else none)
        (find_direct rest now)

  unfoldable mutual
    unfolding find_direct

    pub find_reset_value : Json → Time → Option Time
    find_reset_value null now = none
    find_reset_value (boolean b) now = none
    find_reset_value (text s) now = none
    find_reset_value (number x) now = none
    find_reset_value (array xs) now = find_reset_items xs now
    find_reset_value (object fs) now = first_some (find_direct fs now) (find_reset_fields fs now)

    pub find_reset_items : Items → Time → Option Time
    find_reset_items no_items now = none
    find_reset_items (item x xs) now = first_some (find_reset_value x now) (find_reset_items xs now)

    pub find_reset_fields : Fields → Time → Option Time
    find_reset_fields no_fields now = none
    find_reset_fields (field key x fs) now =
        first_some (find_reset_value x now) (find_reset_fields fs now)

  header_values : List Text → Text → Time → Option Time
  unfolding parse_reset_value
  header_values [] key now = none
  header_values (v ∷ vs) key now =
      first_some (after_now (parse_reset_value v key now) now) (header_values vs key now)

  -- `headers.Values(key)`
  abbrev values : Option (List Text) → List Text
  values none = []
  values (some vs) = vs

  -- Each key as the code spells it, with the canonical form under which http.Header holds it.
  abbrev reset_headers : Dict Text
  reset_headers =
      (codes "Retry-After", codes "Retry-After")
      ∷ (codes "X-RateLimit-Reset", codes "X-Ratelimit-Reset")
      ∷ (codes "RateLimit-Reset", codes "Ratelimit-Reset")
      ∷ (codes "X-RateLimit-Reset-After", codes "X-Ratelimit-Reset-After")
      ∷ []

  header_reset : Dict Text → Dict (List Text) → Time → Option Time
  unfolding header_values lookup
  header_reset [] headers now = none
  header_reset ((key, canonical) ∷ keys) headers now =
      first_some (header_values (values (lookup canonical headers)) key now)
        (header_reset keys headers now)

  body_reset : Option Json → Time → Option Time
  unfolding find_reset_value
  body_reset none now = none
  body_reset (some v) now = find_reset_value v now

  -- `extractResetAt`
  unfoldable pub extract_reset_at : Dict (List Text) → Text → Time → Option Time
  unfolding header_reset body_reset inspected_body
  extract_reset_at headers body now =
      first_some (header_reset reset_headers headers now)
        (body_reset (p.decode (inspected_body body)) now)
