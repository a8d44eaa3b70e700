-- ===== src/Usage.antt =====
-- internal/usage/usage.go: JavaScript's coercions of decoded JSON, on which the token accounts stand.
pub mod Accounts
pub mod Units
pub mod Estimates
use ocfp.Prelude.{
  ℕ, ◌+◌, Bool, true, false, not, ◌&&◌, ◌||◌, Option, none, some, List, [], ◌∷◌, ◌++◌, Bytes, bytes,
  eqb, leb, if◌then◌else◌, length,
}
use ocfp.Config.Validate.{is_empty}
use ocfp.Jsonx.{Json, Items, Fields, Floats}

-- what strconv.ParseFloat returns: a value, the rounded value with ErrRange, or a syntax error
pub data Parsed (F : Type 0) : Type 0 where
  exact : F → Parsed F
  rounded : F → Parsed F
  malformed : Parsed F

-- Go's library, as far as it is called here. `parse_uint` is ParseUint in base 0 and the conversion to
-- float64, `plain` and `scientific` are FormatFloat with 'f' and 'g'.
pub record Numbers (F : Type 0) : Type 0 where
  pub floats : Floats F
  pub trim_space : Bytes → Bytes
  pub parse_uint : Bytes → Option F
  pub parse_float : Bytes → Parsed F
  pub abs : F → F
  pub micro : F
  pub sextillion : F
  pub plain : F → Bytes
  pub scientific : F → Bytes

unfoldable pub has_byte : ℕ → Bytes → Bool
has_byte b [] = false
has_byte b (c ∷ s) = eqb c b || has_byte b s

-- x X b B o O
abbrev pub is_radix : ℕ → Bool
is_radix c = eqb c 120 || eqb c 88 || eqb c 98 || eqb c 66 || eqb c 111 || eqb c 79

abbrev pub has_radix : Bytes → Bool
has_radix (z ∷ c ∷ s) = eqb z 48 && is_radix c
has_radix _ = false

-- strings.TrimLeft(exp, "0"), and "0" for nothing left
abbrev pub trim_zeros : Bytes → Bytes
trim_zeros [] = 48 ∷ []
trim_zeros (c ∷ s) = let rest = trim_zeros s in if eqb c 48 then rest else c ∷ s

abbrev pub signed : Bytes → Bytes
signed [] = 43 ∷ trim_zeros []
signed (c ∷ s) = if eqb c 43 || eqb c 45 then c ∷ trim_zeros s else 43 ∷ trim_zeros (c ∷ s)

-- the exponent behind the first e, spelled as JavaScript does
unfoldable pub js_exponent : Bytes → Bytes
js_exponent [] = []
js_exponent (c ∷ s) = let rest = js_exponent s in if eqb c 101 then 101 ∷ signed s else c ∷ rest

module _ {F : Type 0} (numbers : Numbers F) where
  unfoldable pub js_num_str : F → Bytes
  unfolding js_exponent
  js_num_str f =
      let o = numbers.floats in
      let a = numbers.abs f in
      if o.is_zero f
      then 48 ∷ []
      else js_exponent (
          if not (o.lt a numbers.micro) && o.lt a numbers.sextillion
          then numbers.plain f
          else numbers.scientific f)

  unfoldable mutual
    unfolding js_num_str

    -- String(v)
    pub js_str : Json F → Bytes
    js_str Json.null = bytes "null"
    js_str (Json.string s) = s
    js_str (Json.bool true) = bytes "true"
    js_str (Json.bool false) = bytes "false"
    js_str (Json.number f) = js_num_str f
    js_str (Json.array vs) = array_join vs
    js_str (Json.object m) = bytes "[object Object]"

    -- the elements with commas between them, null as nothing
    pub array_join : Items F → Bytes
    array_join Items.nil = []
    array_join (Items.item Json.null vs) = array_rest vs
    array_join (Items.item v vs) = js_str v ++ array_rest vs

    pub array_rest : Items F → Bytes
    array_rest Items.nil = []
    array_rest (Items.item Json.null vs) = 44 ∷ array_rest vs
    array_rest (Items.item v vs) = 44 ∷ js_str v ++ array_rest vs

  abbrev pub is_finite : F → Bool
  is_finite f = not (numbers.floats.is_nan f || numbers.floats.is_inf f)

  -- overflow and every other error drop the value, underflow is 0
  abbrev pub parsed_number : Parsed F → Option F
  parsed_number (Parsed.exact f) = if numbers.floats.is_inf f then none else some f
  parsed_number (Parsed.rounded f) =
      if numbers.floats.is_zero f then some numbers.floats.zero else none
  parsed_number Parsed.malformed = none

  -- Number of a text
  unfoldable pub text_number : Bytes → Option F
  unfolding has_byte
  text_number text =
      let s = numbers.trim_space text in
      if is_empty s
      then some numbers.floats.zero
      else if has_byte 95 s
      then none
      else if has_radix s
      then numbers.parse_uint s
      else parsed_number (numbers.parse_float s)

  -- NumOK: `none` is JavaScript's NaN or Infinity
  unfoldable pub num_ok : Json F → Option F
  unfolding text_number array_join
  num_ok (Json.number f) = if is_finite f then some f else none
  num_ok (Json.bool true) = some numbers.floats.one
  num_ok (Json.bool false) = some numbers.floats.zero
  num_ok (Json.string s) = text_number s
  num_ok (Json.object m) = none
  num_ok (Json.array vs) = text_number (array_join vs)
  num_ok Json.null = none

  abbrev pub or_zero : Option F → F
  or_zero none = numbers.floats.zero
  or_zero (some f) = f

  unfoldable pub num : Json F → F
  unfolding num_ok
  num v = or_zero (num_ok v)

  unfoldable pub js_truthy : Json F → Bool
  js_truthy Json.null = false
  js_truthy (Json.bool b) = b
  js_truthy (Json.number f) = not (numbers.floats.is_zero f) && not (numbers.floats.is_nan f)
  js_truthy (Json.string s) = not (is_empty s)
  js_truthy (Json.array _) = true
  js_truthy (Json.object _) = true

  -- a || b || c: the first that is truthy, else the last
  unfoldable pub js_or : List (Json F) → Json F
  unfolding js_truthy
  js_or [] = Json.null
  js_or (v ∷ []) = v
  js_or (v ∷ w ∷ vs) = let rest = js_or (w ∷ vs) in if js_truthy v then v else rest

  -- a ?? b: the first that is not null
  unfoldable pub first_non_null : List (Json F) → Json F
  first_non_null [] = Json.null
  first_non_null (Json.null ∷ vs) = first_non_null vs
  first_non_null (v ∷ vs) = v
