-- ===== src/Base/Text.antt =====
-- Texts split at a colon, by the scan of std::string::find(':').
use Prim.Native.Char.{Char, code}
use Prim.Native.String.{String, [], ◌∷◌}
pub use Prim.Native.String.{◌++◌ as ◌⧺◌}
use mathlib.Core.Path.{◌≡◌, ap, ◌∙◌}
use mathlib.Core.Bool.{Bool, true, false}
use mathlib.Core.Option.{Option, none, some}
use native.Mathlib.Omega.{arith}
use text.Mathlib.TextLemmas.{nil-append, cons-append}
use programmable_caching.Base.Tests.{if◌then◌else◌, Bool-cases}
use mathlib.Core.Logic.{inl, inr}
use Prim.Native.Nat.{compare, Ordering}

abbrev pub is_colon : Char → Bool
is_colon c = elim (compare (code c) b':') [ Ordering.eq ↦ true | _ ↦ false ]

abbrev cons_some : Char → Option String → Option String
cons_some c none = none
cons_some c (some s) = some (c ∷ s)

-- The text before the first colon; `none` where `find` returns npos.
unfoldable pub until_colon : String → Option String
until_colon [] = none
until_colon (c ∷ s) = if is_colon c then some [] else cons_some c (until_colon s)

-- The text behind the first colon.
unfoldable pub after_colon : String → Option String
after_colon [] = none
after_colon (c ∷ s) = if is_colon c then some s else after_colon s

-- No colon in the text.
abbrev pub IsPlain : String → Type 0
IsPlain s = until_colon s ≡ none

-- A colon between two texts.
abbrev pub colon_join : String → String → String
colon_join s t = s ⧺ ":" ⧺ t

colon_join-cons : (c : Char) (s t : String) → colon_join (c ∷ s) t ≡ c ∷ colon_join s t
colon_join-cons c s t = cons-append c s (":" ⧺ t)

colon_join-nil : (t : String) → colon_join [] t ≡ ":" ∷ t
colon_join-nil t = nil-append (":" ⧺ t) ∙ cons-append ":" [] t ∙ ap (◌∷◌ ":") (nil-append t)

pub until_colon-colon_join : (s t : String) → IsPlain s → until_colon (colon_join s t) ≡ some s
unfolding until_colon
until_colon-colon_join [] t h = rw colon_join-nil
until_colon-colon_join (c ∷ s) t h = rw colon_join-cons (ground (arith, until_colon-colon_join s t))

pub after_colon-colon_join : (s t : String) → IsPlain s → after_colon (colon_join s t) ≡ some t
unfolding until_colon after_colon
after_colon-colon_join [] t h = rw colon_join-nil
after_colon-colon_join (c ∷ s) t h = rw colon_join-cons (ground (arith, after_colon-colon_join s t))

-- A plain text before the colon makes the pair recoverable.
pub colon_join-injective :
    (s t s' t' : String)
    → IsPlain s
    → IsPlain s'
    → colon_join s t ≡ colon_join s' t'
    → (s ≡ s') × (t ≡ t')
colon_join-injective s t s' t' p p' e = (
  cc (until_colon-colon_join s t p, until_colon-colon_join s' t' p'),
  cc (after_colon-colon_join s t p, after_colon-colon_join s' t' p'),
)

-- A text with a colon in it has a part before the first colon.
pub until_colon-some : (s t : String) → (h : String) × (until_colon (colon_join s t) ≡ some h)
unfolding until_colon
until_colon-some [] t = ([], rw colon_join-nil)
until_colon-some (c ∷ s) t = elim (Bool-cases (is_colon c)) [
  | inl e ↦ ([], rw (colon_join-cons, e))
  | inr e ↦ let (h, rest) = until_colon-some s t in (c ∷ h, rw (colon_join-cons, e, rest))
]
