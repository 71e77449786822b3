-- ===== src/Withdrawal/Beneficiary.antt =====
-- parseTravelRuleBeneficiary of server/src/withdrawalService.ts, on the fields of an object that a
-- client sends. White space is that of ASCII.
use tende.Base.{
  ℕ, Action, Bool, Error, List, Option, Text, [], any, codes, every, false, http, if◌then◌else◌,
  is_space, leb, length, ltb, none, not, or_raise, pure, raise_if, some, take, text_eq, to_lower,
  to_upper, true, ◌&&◌, ◌==◌, ◌>>=◌, ◌>>◌, ◌||◌, ◌∷◌, trim,
}
use mathlib.Core.Option
use tende.Env.{is_empty}
use tende.Schema.{TravelRuleBeneficiary}

-- A field: absent or null, a value that is no string, or a string.
pub data Field : Type 0 where
  nullish other : Field
  string : Text → Field

pub record RawBeneficiary : Type 0 where
  pub full_name : Field
  pub name : Field
  pub id_number : Field
  pub phone : Field
  pub country : Field
  pub relationship : Field

unfoldable pub coalesce : Field → Field → Field
coalesce nullish d = d
coalesce other d = other
coalesce (string s) d = string s

unfoldable pub starts_with : (ℕ → Bool) → Text → Bool
starts_with p [] = false
starts_with p (c ∷ s) = p c

-- `s.replace(/p+/g, r)`
unfoldable pub replace_runs : (ℕ → Bool) → ℕ → Text → Text
replace_runs p r [] = []
replace_runs p r (c ∷ s) =
    let rest = replace_runs p r s in
    if p c then (if starts_with p s then rest else r ∷ rest) else c ∷ rest

unfoldable pub clean_str : Field → ℕ → Option Text
clean_str nullish max = none
clean_str other max = none
clean_str (string v) max =
    let s = replace_runs is_space 32 (trim v) in if is_empty s then none else some (take max s)

abbrev pub name_required : Error
name_required = http 400 "TRAVEL_RULE_NAME_REQUIRED"

abbrev pub invalid_country : Error
invalid_country = http 400 "INVALID_COUNTRY"

abbrev pub invalid_relationship : Error
invalid_relationship = http 400 "INVALID_RELATIONSHIP"

-- `/^[A-Z]{2}$/`
unfoldable pub is_country_code : Text → Bool
is_country_code s = length s == 2 && every (λ c. leb b'A' c && leb c b'Z') s

abbrev pub relationships : List Text
relationships =
    codes "immediate_family"
    ∷ codes "extended_family"
    ∷ codes "friend"
    ∷ codes "employee"
    ∷ codes "employer"
    ∷ codes "business_partner"
    ∷ codes "self"
    ∷ codes "other"
    ∷ []

unfoldable pub is_relationship : Text → Bool
is_relationship s = any (text_eq s) relationships

unfoldable pub all_of : (Text → Bool) → Option Text → Bool
all_of p none = true
all_of p (some s) = p s

unfoldable pub parse_travel_rule_beneficiary :
    {S : Type 0} → RawBeneficiary → Action S TravelRuleBeneficiary
parse_travel_rule_beneficiary o = do
  full_name ← or_raise (clean_str (coalesce o.full_name o.name) 200) name_required
  raise_if (ltb (length full_name) 2) name_required
  let country = Option.map to_upper (clean_str o.country 2)
  raise_if (not (all_of is_country_code country)) invalid_country
  let relationship =
      Option.map (λ s. replace_runs (λ c. is_space c || c == b'-') b'_' (to_lower s))
        (clean_str o.relationship 32)
  raise_if (not (all_of is_relationship relationship)) invalid_relationship
  pure (record {
    full_name = full_name;
    id_number = clean_str o.id_number 64;
    phone = clean_str o.phone 32;
    country = country;
    relationship = relationship;
  })
