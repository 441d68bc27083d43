-- ===== src/Prelude/Order.antt =====
-- The order of sort keys: numbers, texts by their code points (the order of their UTF-8 bytes), and
-- tuples of these, compared lexicographically.
use Prim.Native.Nat.{ℕ, compare as compare_ℕ, Ordering}
use Prim.Native.Char.{Char, code}
use Prim.Native.String.compare
use Prim.Native.String.{String, compare, then}
use mathlib.Core.Path.{◌≡◌, refl, sym, ◌∙◌, ap₂}
use mathlib.Core.Bool.{Bool, true, false, not, ◌&&◌, ◌||◌}
use native.Mathlib.Omega.{arith}
use text.Mathlib.TextEquality.{codes_equal}
use joinlint.Prelude.Tests.{leb}

pub record Ord {ℓ} (A : Type ℓ) : Type ℓ where
  pub le : A → A → Bool
  pub le_total : (a b : A) → le a b ≡ false → le b a ≡ true
  pub le_trans : (a b c : A) → le a b ≡ true → le b c ≡ true → le a c ≡ true
  pub le_antisymm : (a b : A) → le a b ≡ true → le b a ≡ true → a ≡ b

-- `a <= b` where the comparison answered `o`.
abbrev is_le : Ordering → Bool
is_le Ordering.lt = true
is_le Ordering.eq = true
is_le Ordering.gt = false

pub nat_leb_total : (a b : ℕ) → leb a b ≡ false → leb b a ≡ true
nat_leb_total a b h = ground arith

pub nat_leb_trans : (a b c : ℕ) → leb a b ≡ true → leb b c ≡ true → leb a c ≡ true
nat_leb_trans a b c h k = ground arith

pub nat_leb_antisymm : (a b : ℕ) → leb a b ≡ true → leb b a ≡ true → a ≡ b
nat_leb_antisymm a b h k = ground arith

instance abbrev pub nat_ord : Ord ℕ
nat_ord = record {
  le = leb;
  le_total = nat_leb_total;
  le_trans = nat_leb_trans;
  le_antisymm = nat_leb_antisymm;
}

-- `a.encode("utf-8") <= b.encode("utf-8")`
unfoldable pub text_le : String → String → Bool
text_le s t = is_le (compare s t)

pub text_le-nil : (t : String) → text_le String.[] t ≡ true
unfolding text_le
text_le-nil String.[] = refl
text_le-nil (String.◌∷◌ d t) = rw (compare.nil-cons d t)

pub text_le-cons-nil : (c : Char) (s : String) → text_le (String.◌∷◌ c s) String.[] ≡ false
unfolding text_le
text_le-cons-nil c s = rw (compare.cons-nil c s)

-- The comparison of two texts by the codes of their first characters, then by the rest.
abbrev lex : Ordering → Bool → Bool
lex Ordering.lt b = true
lex Ordering.eq b = b
lex Ordering.gt b = false

is_le-then : (o q : Ordering) → is_le (then o q) ≡ lex o (is_le q)
is_le-then Ordering.lt q = refl
is_le-then Ordering.eq q = refl
is_le-then Ordering.gt q = refl

text_le-cons-cons :
    (c d : Char) (s t : String)
    → text_le (String.◌∷◌ c s) (String.◌∷◌ d t) ≡ lex (compare_ℕ (code c) (code d)) (text_le s t)
unfolding text_le
text_le-cons-cons c d s t = rw (compare.cons-cons c d s t) (is_le-then _ _)

lex_total :
    (m n : ℕ) (a b : Bool)
    → (a ≡ false → b ≡ true)
    → lex (compare_ℕ m n) a ≡ false
    → lex (compare_ℕ n m) b ≡ true
lex_total m n a b f h = ground arith

lex_trans :
    (l m n : ℕ) (a b c : Bool)
    → (a ≡ true → b ≡ true → c ≡ true)
    → lex (compare_ℕ l m) a ≡ true
    → lex (compare_ℕ m n) b ≡ true
    → lex (compare_ℕ l n) c ≡ true
lex_trans l m n a b c f h k = ground arith

lex_antisymm :
    (m n : ℕ) (a b : Bool)
    → lex (compare_ℕ m n) a ≡ true
    → lex (compare_ℕ n m) b ≡ true
    → (compare_ℕ m n ≡ Ordering.eq) × (a ≡ true) × (b ≡ true)
lex_antisymm m n a b h k = ground arith

pub text_le_total : (s t : String) → text_le s t ≡ false → text_le t s ≡ true
text_le_total String.[] t h = cc (text_le-nil t)
text_le_total (String.◌∷◌ c s) String.[] h = text_le-nil _
text_le_total (String.◌∷◌ c s) (String.◌∷◌ d t) h =
    text_le-cons-cons d c t s
    ∙ lex_total (code c) (code d) _ _ (text_le_total s t) (sym (text_le-cons-cons c d s t) ∙ h)

pub text_le_trans : (s t u : String) → text_le s t ≡ true → text_le t u ≡ true → text_le s u ≡ true
text_le_trans String.[] t u h k = text_le-nil u
text_le_trans (String.◌∷◌ c s) String.[] u h k = cc (text_le-cons-nil c s)
text_le_trans (String.◌∷◌ c s) (String.◌∷◌ d t) String.[] h k = cc (text_le-cons-nil d t)
text_le_trans (String.◌∷◌ c s) (String.◌∷◌ d t) (String.◌∷◌ e u) h k =
    text_le-cons-cons c e s u
    ∙ lex_trans (code c) (code d) (code e) _ _ _ (text_le_trans s t u)
        (sym (text_le-cons-cons c d s t) ∙ h) (sym (text_le-cons-cons d e t u) ∙ k)

pub text_le_antisymm : (s t : String) → text_le s t ≡ true → text_le t s ≡ true → s ≡ t
text_le_antisymm String.[] String.[] h k = refl
text_le_antisymm String.[] (String.◌∷◌ d t) h k = cc (text_le-cons-nil d t)
text_le_antisymm (String.◌∷◌ c s) String.[] h k = cc (text_le-cons-nil c s)
text_le_antisymm (String.◌∷◌ c s) (String.◌∷◌ d t) h k =
    let (o, a, b) =
      lex_antisymm (code c) (code d) _ _ (sym (text_le-cons-cons c d s t) ∙ h)
        (sym (text_le-cons-cons d c t s) ∙ k) in
    ap₂ String.◌∷◌ (codes_equal c d o) (text_le_antisymm s t a b)

instance abbrev pub text_ord : Ord String
text_ord = record {
  le = text_le;
  le_total = text_le_total;
  le_trans = text_le_trans;
  le_antisymm = text_le_antisymm;
}

-- Tuples: the second components decide between tuples whose first components are equal.
module _ {ℓ κ} {A : Type ℓ} {B : Type κ} ⦃o : Ord A⦄ ⦃q : Ord B⦄ where
  abbrev pub pair_le : A × B → A × B → Bool
  pair_le (a, b) (c, d) = o.le a c && (not (o.le c a) || q.le b d)

  pub pair_le_total : (x y : A × B) → pair_le x y ≡ false → pair_le y x ≡ true
  pair_le_total (a, b) (c, d) h = ground (arith, o.le_total a c, o.le_total c a, q.le_total b d)

  pub pair_le_trans : (x y z : A × B) → pair_le x y ≡ true → pair_le y z ≡ true → pair_le x z ≡ true
  pair_le_trans (a, b) (c, d) (e, f) h k =
      ground (arith, o.le_trans a c e, o.le_trans e a c, o.le_trans c e a, q.le_trans b d f)

  pub pair_le_antisymm : (x y : A × B) → pair_le x y ≡ true → pair_le y x ≡ true → x ≡ y
  pair_le_antisymm (a, b) (c, d) h k = ground (arith, o.le_antisymm a c, q.le_antisymm b d)

  instance abbrev pub pair_ord : Ord (A × B)
  pair_ord = record {
    le = pair_le;
    le_total = pair_le_total;
    le_trans = pair_le_trans;
    le_antisymm = pair_le_antisymm;
  }
