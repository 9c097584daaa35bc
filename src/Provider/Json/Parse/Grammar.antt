-- ===== src/Provider/Json/Parse/Grammar.antt =====
-- How a JSON text spells a value: a grammar of containers that is told without the parser, and with
-- it, for every value within a document, the text that it was read from.
use llmbridge.Base.{ℕ, ◌≡◌, refl, ap, Bool, true, false, List, [], ◌∷◌, ◌++◌, if◌then◌else◌, arith}
use llmbridge.Base.Bytes.{Bytes}
use llmbridge.Provider.Json.Tokens.{
  Parser, Value, array, object, Values, no_values, element, Members, no_members, member, skip_ws,
  starts, tail,
}
use llmbridge.Provider.Json.Tokens.Raw.{raw}
use llmbridge.Provider.Json.Parse.{Config, parse_value, parse_elements, parse_members}

abbrev pub is_scalar : Value → Bool
is_scalar (array sv vs) = false
is_scalar (object sv ms) = false
is_scalar _ = true

-- `Reads s v r`: the text `s` spells `v`, and `r` is left behind it. What a value keeps as its `sv` is
-- the text that it was read from, and its elements and members are spelled within that text. An
-- unbuilt container is spelled as the one that has its text and its content.
mutual
  pub data Reads : Bytes → Value → Bytes → Type 0 where
    a_scalar : {s r : Bytes} {v : Value} → is_scalar v ≡ true → s ≡ raw v ++ r → Reads s v r
    no_elements :
        {s t r sv : Bytes}
        → s ≡ b'[' ∷ t
        → skip_ws t ≡ b']' ∷ r
        → s ≡ sv ++ r
        → Reads s (array sv no_values) r
    some_elements :
        {s t r sv : Bytes} {vs : Values}
        → s ≡ b'[' ∷ t
        → ReadsElements (skip_ws t) vs r
        → s ≡ sv ++ r
        → Reads s (array sv vs) r
    nothing_named :
        {s t r sv : Bytes}
        → s ≡ b'{' ∷ t
        → skip_ws t ≡ b'}' ∷ r
        → s ≡ sv ++ r
        → Reads s (object sv no_members) r
    some_named :
        {s t r sv : Bytes} {ms : Members}
        → s ≡ b'{' ∷ t
        → ReadsMembers (skip_ws t) ms r
        → s ≡ sv ++ r
        → Reads s (object sv ms) r
    unbuilt_array :
        {s r sv : Bytes} {vs : Values} → Reads s (array sv vs) r → Reads s (array sv no_values) r
    unbuilt_object :
        {s r sv : Bytes} {ms : Members}
        → Reads s (object sv ms) r
        → Reads s (object sv no_members) r

  pub data ReadsElements : Bytes → Values → Bytes → Type 0 where
    last_element :
        {s q r : Bytes} {v : Value}
        → Reads (skip_ws s) v q
        → skip_ws q ≡ b']' ∷ r
        → ReadsElements s (element v no_values) r
    an_element :
        {s q t r : Bytes} {v : Value} {vs : Values}
        → Reads (skip_ws s) v q
        → skip_ws q ≡ b',' ∷ t
        → ReadsElements t vs r
        → ReadsElements s (element v vs) r

  pub data ReadsMembers : Bytes → Members → Bytes → Type 0 where
    last_member :
        {s q r key : Bytes} {v : Value}
        → ReadsMember s key v q
        → skip_ws q ≡ b'}' ∷ r
        → ReadsMembers s (member key v no_members) r
    a_member :
        {s q t r key : Bytes} {v : Value} {ms : Members}
        → ReadsMember s key v q
        → skip_ws q ≡ b',' ∷ t
        → ReadsMembers t ms r
        → ReadsMembers s (member key v ms) r

  -- A key in its quotes, a colon and a value.
  pub data ReadsMember : Bytes → Bytes → Value → Bytes → Type 0 where
    key_and_value :
        {s u r key : Bytes} {v : Value} (t : Bytes)
        → skip_ws s ≡ (b'"' ∷ (key ++ b'"' ∷ [])) ++ t
        → skip_ws t ≡ b':' ∷ u
        → Reads (skip_ws u) v r
        → ReadsMember s key v r

abbrev pub IsRead : Bytes → Value × Parser → Type 0
IsRead s x = x.1.ok ≡ true → Reads s x.0 x.1.rest

abbrev pub AreElements : Bytes → Values × Parser → Type 0
AreElements s x = x.1.ok ≡ true → ReadsElements s x.0 x.1.rest

abbrev pub AreMembers : Bytes → Members × Parser → Type 0
AreMembers s x = x.1.ok ≡ true → ReadsMembers s x.0 x.1.rest

-- The three parsers of a text at one amount of fuel.
pub record AreRead (cfg : Config) (fuel : ℕ) : Type 0 where
  pub value : (p : Parser) → IsRead (skip_ws p.rest) (parse_value cfg fuel p)
  pub elements : (p : Parser) → AreElements p.rest (parse_elements cfg fuel p)
  pub members :
      (before : ℕ) (ks : List Bytes) (p : Parser)
      → AreMembers p.rest (parse_members cfg fuel before ks p)

pub if_holds :
    {A : Type 0} (P : A → Type 0) (b : Bool) (x y : A)
    → (b ≡ true → P x)
    → (b ≡ false → P y)
    → P (if b then x else y)
if_holds P true x y h k = h refl
if_holds P false x y h k = k refl

pub starts-eq : (c : ℕ) (s : Bytes) → starts c s ≡ true → s ≡ c ∷ tail s
starts-eq c [] h = cc
starts-eq c (d ∷ s) h = let e : d ≡ c = ground (arith, h) in ap (λ x. x ∷ s) e
