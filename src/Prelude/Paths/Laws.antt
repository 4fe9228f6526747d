-- ===== src/Prelude/Paths/Laws.antt =====
-- Segments without a slash, joined and split again.
use Prim.Native.Char.{Char, code}
use Prim.Native.String.{String, ◌++◌ as ◌⊕◌}
use Prim.Native.String.append as Append
use Prim.Native.Nat.{ℕ}
use mathlib.Core.Path.{◌≡◌, ◌∙◌, refl, sym, ap}
use mathlib.Core.Logic.{inl, inr}
use mathlib.Core.Bool.{Bool, true, false, ◌||◌}
use mathlib.Core.List.{List, [], ◌∷◌, ◌++◌, reverse, reverse-cons, append_assoc}
use mathlib.Core.List as List
use text.Mathlib.TextLemmas.{append-nil}
use native.Mathlib.Omega.{arith}
use k8s_lb_controller.Prelude.Tests.{◌==◌, nat_eq, string_eq, contains, Bool-cases, All}
use k8s_lb_controller.Prelude.Texts.{codes, split}
use k8s_lb_controller.Prelude.Paths.{slash_all, push_segment, clean_segments, behind_slashes}

-- Whether a text has the character.
abbrev pub has : ℕ → String → Bool
has x s = contains (codes s) x

pub or_false : (a b : Bool) → (a || b) ≡ false → (a ≡ false) × (b ≡ false)
or_false a b h = ground arith

pub one_char-append : (c : Char) (s : String) → String.◌∷◌ c String.[] ⊕ s ≡ String.◌∷◌ c s
one_char-append c s = Append.cons c String.[] s ∙ ap (String.◌∷◌ c) (Append.nil s)

split_same :
    (x : ℕ) (c : Char) (s : String)
    → (code c == x) ≡ true
    → split x (String.◌∷◌ c s) ≡ "" ∷ split x s
unfolding split
split_same x c s e = rw e

split_other :
    (x : ℕ) (c : Char) (s p : String) (ps : List String)
    → (code c == x) ≡ false
    → split x s ≡ p ∷ ps
    → split x (String.◌∷◌ c s) ≡ String.◌∷◌ c p ∷ ps
unfolding split
split_other x c s p ps e h = rw (e, h) (rw (one_char-append c p))

pub split_plain : (x : ℕ) (s : String) → has x s ≡ false → split x s ≡ s ∷ []
unfolding contains
split_plain x String.[] h = unfold split in refl
split_plain x (String.◌∷◌ c s) h =
    let (e, r) = or_false (code c == x) (has x s) h in split_other x c s s [] e (split_plain x s r)

split-cons : (x : ℕ) (s : String) → (p : String) × (ps : List String) × (split x s ≡ p ∷ ps)
split-cons x String.[] = ("", [], unfold split in refl)
split-cons x (String.◌∷◌ c s) = elim (Bool-cases (code c == x)) [
  | inl e ↦ ("", split x s, split_same x c s e)
  | inr e ↦ let (p, ps, h) = split-cons x s in (String.◌∷◌ c p, ps, split_other x c s p ps e h)
]

pub split-append :
    (x : ℕ) (c : Char) (s t : String)
    → (code c == x) ≡ true
    → split x (s ⊕ String.◌∷◌ c t) ≡ split x s ++ split x t
split-append x c String.[] t e =
    ap (split x) (Append.nil _) ∙ split_same x c t e ∙ unfold split in refl
split-append x c (String.◌∷◌ d s) t e = elim (Bool-cases (code d == x)) [
  | inl y ↦
      ap (split x) (Append.cons d s _)
      ∙ split_same x d (s ⊕ String.◌∷◌ c t) y
      ∙ ap (λ l. "" ∷ l) (split-append x c s t e)
      ∙ ap (λ l. l ++ split x t) (sym (split_same x d s y))
  | inr n ↦
      let (p, ps, h) = split-cons x s in
      ap (split x) (Append.cons d s _)
      ∙ split_other x d (s ⊕ String.◌∷◌ c t) p (ps ++ split x t) n
          (split-append x c s t e ∙ ap (λ l. l ++ split x t) h)
      ∙ ap (λ l. l ++ split x t) (sym (split_other x d s p ps n h))
]

pub split_slash : (s t : String) → split 47 (s ⊕ ("/" ⊕ t)) ≡ split 47 s ++ split 47 t
split_slash s t = ap (λ z. split 47 (s ⊕ z)) (one_char-append "/" t) ∙ split-append 47 "/" s t refl

pub split_front : (t : String) → split 47 ("/" ⊕ t) ≡ "" ∷ split 47 t
split_front t = ap (split 47) (one_char-append "/" t) ∙ split_same 47 "/" t refl

-- A segment that path.Clean keeps as it is.
pub record IsSegment (s : String) : Type 0 where
  pub named : (s == "") ≡ false
  pub no_dot : (s == ".") ≡ false
  pub no_dots : (s == "..") ≡ false
  pub no_slash : has 47 s ≡ false

pub split-segments :
    (s : String) (l : List String)
    → IsSegment s
    → All IsSegment l
    → split 47 (s ⊕ behind_slashes l) ≡ s ∷ l
unfolding behind_slashes
split-segments s [] h _ = ap (split 47) (append-nil s) ∙ split_plain 47 s h.no_slash
split-segments s (t ∷ l) h (k, ks) =
    split_slash s (t ⊕ behind_slashes l)
    ∙ ap (λ z. z ++ split 47 (t ⊕ behind_slashes l)) (split_plain 47 s h.no_slash)
    ∙ ap (λ z. s ∷ z) (split-segments t l k ks)

pub slash_all-segments : (l : List String) → All IsSegment l → slash_all l ≡ behind_slashes l
unfolding slash_all behind_slashes
slash_all-segments [] _ = refl
slash_all-segments (s ∷ l) (h, hs) =
    rw (h.named) (ap (λ z. "/" ⊕ (s ⊕ z)) (slash_all-segments l hs))

push_segment-segment :
    (kept : List String) (s : String) → IsSegment s → push_segment kept s ≡ s ∷ kept
unfolding push_segment
push_segment-segment kept s h = rw (h.named, h.no_dot, h.no_dots)

pub clean_segments-segments :
    (kept l : List String) → All IsSegment l → clean_segments kept l ≡ reverse kept ++ l
unfolding clean_segments
clean_segments-segments kept [] _ = sym (List.append-nil (reverse kept))
clean_segments-segments kept (s ∷ l) (h, hs) =
    ap (λ k. clean_segments k l) (push_segment-segment kept s h)
    ∙ clean_segments-segments (s ∷ kept) l hs
    ∙ simp (reverse-cons, append_assoc)
