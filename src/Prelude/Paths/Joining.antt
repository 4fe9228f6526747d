-- ===== src/Prelude/Paths/Joining.antt =====
-- path.Join of segments behind a base, and strings.Trim and strings.Split of the result.
use Prim.Native.Char.{code}
use Prim.Native.String.{String, ◌++◌ as ◌⊕◌}
use Prim.Native.String.append as Append
use Prim.Native.Nat.{ℕ}
use mathlib.Core.Path.{◌≡◌, ◌∙◌, refl, ap}
use mathlib.Core.Logic.{inl, inr}
use mathlib.Core.Bool.{Bool, true, false, ◌&&◌}
use mathlib.Core.List.{List, [], ◌∷◌, ◌++◌}
use k8s_lb_controller.Prelude.Tests.{◌==◌, nat_eq, string_eq, contains, Bool-cases, All, equal-true}
use k8s_lb_controller.Prelude.Texts.{split, is_empty, trim_left_of, trim_right_of, trim_of}
use k8s_lb_controller.Prelude.Paths.{
  slash_all, push_segment, clean_segments, behind_slashes, clean_rooted, join_rooted, rooted,
}
use k8s_lb_controller.Prelude.Paths.Laws.{
  has, or_false, one_char-append, split_slash, split_front, IsSegment, split-segments,
  slash_all-segments, clean_segments-segments,
}
use text.Mathlib.TextLemmas.{append-nil}

clean_segments-append :
    (kept before after : List String)
    → All IsSegment after
    → clean_segments kept (before ++ after) ≡ clean_segments kept before ++ after
unfolding clean_segments
clean_segments-append kept [] after h = clean_segments-segments kept after h
clean_segments-append kept (s ∷ before) after h =
    clean_segments-append (push_segment kept s) before after h

-- The segments that path.Clean keeps of a base.
abbrev pub base_segments : String → List String
base_segments base = clean_segments [] (split 47 base)

slash_all-empty : (l : List String) → slash_all ("" ∷ l) ≡ slash_all l
unfolding slash_all
slash_all-empty l = refl

slash_all-cons :
    (s : String) (l : List String) → (s == "") ≡ false → slash_all (s ∷ l) ≡ "/" ⊕ (s ⊕ slash_all l)
unfolding slash_all
slash_all-cons s l h = rw h

pub clean_segments-blank :
    (kept l : List String) → clean_segments kept ("" ∷ l) ≡ clean_segments kept l
unfolding clean_segments push_segment
clean_segments-blank kept l = refl

module _ (s : String) (l : List String) (h : IsSegment s) (hs : All IsSegment l) where
  split_text : split 47 (s ⊕ slash_all l) ≡ s ∷ l
  split_text = ap (λ z. split 47 (s ⊕ z)) (slash_all-segments l hs) ∙ split-segments s l h hs

  split_base :
      (base : String)
      → (base == "") ≡ false
      → split 47 ("/" ⊕ slash_all (base ∷ s ∷ l)) ≡ "" ∷ "" ∷ (split 47 base ++ s ∷ l)
  split_base base n =
      split_front (slash_all (base ∷ s ∷ l))
      ∙ ap (λ z. "" ∷ split 47 z) (slash_all-cons base (s ∷ l) n)
      ∙ ap (λ z. "" ∷ z) (split_front (base ⊕ slash_all (s ∷ l)))
      ∙ ap (λ z. "" ∷ "" ∷ split 47 (base ⊕ z)) (slash_all-cons s l h.named)
      ∙ ap (λ z. "" ∷ "" ∷ z) (split_slash base (s ⊕ slash_all l))
      ∙ ap (λ z. "" ∷ "" ∷ (split 47 base ++ z)) split_text

  split_no_base : split 47 ("/" ⊕ slash_all ("" ∷ s ∷ l)) ≡ "" ∷ "" ∷ s ∷ l
  split_no_base =
      split_front (slash_all ("" ∷ s ∷ l))
      ∙ ap (λ z. "" ∷ split 47 z) (slash_all-empty (s ∷ l) ∙ slash_all-cons s l h.named)
      ∙ ap (λ z. "" ∷ z) (split_front (s ⊕ slash_all l))
      ∙ ap (λ z. "" ∷ "" ∷ z) split_text

  two_blanks : (l' : List String) → clean_segments [] ("" ∷ "" ∷ l') ≡ clean_segments [] l'
  two_blanks l' = clean_segments-blank [] ("" ∷ l') ∙ clean_segments-blank [] l'

  joined_split :
      (base : String)
      → clean_segments [] (split 47 ("/" ⊕ slash_all (base ∷ s ∷ l))) ≡ base_segments base ++ s ∷ l
  joined_split base = elim (Bool-cases (base == "")) [
    | inl e ↦
        let empty : base ≡ "" = equal-true {a = base} {b = ""} e in
        rw empty (
          ap (clean_segments []) split_no_base
          ∙ two_blanks (s ∷ l)
          ∙ clean_segments-segments [] (s ∷ l) (h, hs)
          ∙ unfold clean_segments split push_segment in refl)
    | inr n ↦
        ap (clean_segments []) (split_base base n)
        ∙ two_blanks (split 47 base ++ s ∷ l)
        ∙ clean_segments-append [] (split 47 base) (s ∷ l) (h, hs)
  ]

  -- path.Join cleans the base and puts the segments behind it as they are.
  pub join_rooted-segments :
      (base : String) → join_rooted (base ∷ s ∷ l) ≡ rooted (base_segments base ++ s ∷ l)
  unfolding join_rooted clean_rooted
  join_rooted-segments base = ap rooted (joined_split base)

trim_left-plain :
    (x : ℕ) (s t : String) → (s == "") ≡ false → has x s ≡ false → trim_left_of x (s ⊕ t) ≡ s ⊕ t
unfolding trim_left_of contains
trim_left-plain x String.[] t h p = absurd (cc)
trim_left-plain x (String.◌∷◌ c s) t h p =
    let (e, r) = or_false (code c == x) (has x s) p in rw (Append.cons c s t) (rw e)

is_empty-append : (s t : String) → is_empty t ≡ false → is_empty (s ⊕ t) ≡ false
is_empty-append String.[] t h = rw (Append.nil t) h
is_empty-append (String.◌∷◌ c s) t h = rw (Append.cons c s t)

trim_right-append :
    (x : ℕ) (s t : String)
    → is_empty t ≡ false
    → trim_right_of x t ≡ t
    → trim_right_of x (s ⊕ t) ≡ s ⊕ t
unfolding trim_right_of
trim_right-append x String.[] t n h = rw (Append.nil t) h
trim_right-append x (String.◌∷◌ c s) t n h =
    rw (Append.cons c s t) (rw (trim_right-append x s t n h) (rw (is_empty-append s t n)))

and_false : (b : Bool) → (b && false) ≡ false
and_false true = refl
and_false false = refl

trim_right-plain : (x : ℕ) (s : String) → has x s ≡ false → trim_right_of x s ≡ s
unfolding trim_right_of contains
trim_right-plain x String.[] p = refl
trim_right-plain x (String.◌∷◌ c s) p =
    let (e, r) = or_false (code c == x) (has x s) p in
    rw (trim_right-plain x s r) (rw e (rw (and_false (is_empty s))))

segment-is_empty : (s t : String) → (s == "") ≡ false → is_empty (s ⊕ t) ≡ false
segment-is_empty String.[] t h = absurd (cc)
segment-is_empty (String.◌∷◌ c s) t h = rw (Append.cons c s t)

slash-is_empty : (t : String) → is_empty ("/" ⊕ t) ≡ false
slash-is_empty t = rw (one_char-append "/" t)

trim_right-segments :
    (s : String) (l : List String)
    → IsSegment s
    → All IsSegment l
    → trim_right_of 47 (s ⊕ behind_slashes l) ≡ s ⊕ behind_slashes l
unfolding behind_slashes
trim_right-segments s [] h _ = rw (append-nil s) (trim_right-plain 47 s h.no_slash)
trim_right-segments s (t ∷ l) h (k, ks) =
    trim_right-append 47 s ("/" ⊕ (t ⊕ behind_slashes l)) (slash-is_empty (t ⊕ behind_slashes l)) (
      trim_right-append 47 "/" (t ⊕ behind_slashes l)
        (segment-is_empty t (behind_slashes l) k.named) (trim_right-segments t l k ks))

trim_left-slash : (t : String) → trim_left_of 47 ("/" ⊕ t) ≡ trim_left_of 47 t
unfolding trim_left_of
trim_left-slash t = rw (one_char-append "/" t)

-- The segments of a path that is nothing but segments behind slashes.
pub split-trim_of-segments :
    (s : String) (l : List String)
    → IsSegment s
    → All IsSegment l
    → split 47 (trim_of 47 (behind_slashes (s ∷ l))) ≡ s ∷ l
unfolding trim_of behind_slashes
split-trim_of-segments s l h hs =
    ap (λ z. split 47 (trim_right_of 47 z))
      (trim_left-slash (s ⊕ behind_slashes l)
        ∙ trim_left-plain 47 s (behind_slashes l) h.named h.no_slash)
    ∙ ap (split 47) (trim_right-segments s l h hs)
    ∙ split-segments s l h hs
