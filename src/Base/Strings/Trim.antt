-- ===== src/Base/Strings/Trim.antt =====
-- Trimming twice is trimming once.
use Prim.Native.Nat.{ℕ}
use mathlib.Core.Path.{◌≡◌, refl, ap, ◌∙◌}
use mathlib.Core.Bool.{Bool, true, false}
use mathlib.Core.Logic.{◌≢◌}
use mathlib.Core.List.{[], ◌∷◌}
use monogo.Base.Tests.{if◌then◌else◌}
use monogo.Base.Strings.{Text, is_space, trim_left, trim_right, push_kept, trim_space}

kept-right :
    (b : Bool) (c : ℕ)
    → is_space c ≡ b
    → trim_right (if b then [] else c ∷ []) ≡ (if b then [] else c ∷ [])
unfolding trim_right push_kept
kept-right true c h = refl
kept-right false c h = rw h refl

push-right : (c : ℕ) (t : Text) → trim_right t ≡ t → trim_right (push_kept c t) ≡ push_kept c t
unfolding trim_right push_kept
push-right c [] h = kept-right (is_space c) c refl
push-right c (d ∷ s) h = ap (push_kept c) h

trim_right-twice : (s : Text) → trim_right (trim_right s) ≡ trim_right s
unfolding trim_right
trim_right-twice [] = refl
trim_right-twice (c ∷ s) = push-right c (trim_right s) (trim_right-twice s)

left-once :
    (b : Bool) (c : ℕ) (s : Text)
    → is_space c ≡ b
    → trim_left (trim_left s) ≡ trim_left s
    → trim_left (if b then trim_left s else c ∷ s) ≡ (if b then trim_left s else c ∷ s)
unfolding trim_left
left-once true c s h i = i
left-once false c s h i = rw h refl

trim_left-twice : (s : Text) → trim_left (trim_left s) ≡ trim_left s
unfolding trim_left
trim_left-twice [] = refl
trim_left-twice (c ∷ s) = left-once (is_space c) c s refl (trim_left-twice s)

tail_of : Text → Text
tail_of [] = []
tail_of (c ∷ s) = s

too_short : (b : Bool) (c x : ℕ) (s : Text) → (if b then [] else c ∷ []) ≢ (c ∷ x ∷ s)
too_short true c x s h = cc
too_short false c x s h = cc

-- What is trimmed on the right stays so without its first letter.
tail-trimmed : (c : ℕ) (s t : Text) → trim_right s ≡ t → push_kept c t ≡ c ∷ s → trim_right s ≡ s
unfolding push_kept trim_right tail_of
tail-trimmed c [] t e h = refl
tail-trimmed c (x ∷ s) [] e h = absurd (too_short (is_space c) c x s h)
tail-trimmed c s (d ∷ t) e h = e ∙ ap tail_of h

left-trimmed : (t : Text) → trim_right t ≡ t → trim_right (trim_left t) ≡ trim_left t
unfolding trim_left trim_right
left-trimmed [] h = refl
left-trimmed (c ∷ s) h = go (is_space c) (left-trimmed s (tail-trimmed c s (trim_right s) refl h))
  where
    go :
        (b : Bool)
        → trim_right (trim_left s) ≡ trim_left s
        → trim_right (if b then trim_left s else c ∷ s) ≡ (if b then trim_left s else c ∷ s)
    go true i = i
    go false i = h

pub trim_space-twice : (s : Text) → trim_space (trim_space s) ≡ trim_space s
unfolding trim_space
trim_space-twice s =
    ap trim_left (left-trimmed (trim_right s) (trim_right-twice s)) ∙ trim_left-twice (trim_right s)

kept-head : (c : ℕ) (s : Text) → is_space c ≡ false → (t : Text) × (push_kept c s ≡ c ∷ t)
unfolding push_kept
kept-head c [] h = ([], rw h refl)
kept-head c (d ∷ s) h = (d ∷ s, refl)

left-head : (c : ℕ) (t : Text) → is_space c ≡ false → trim_left (c ∷ t) ≡ c ∷ t
unfolding trim_left
left-head c t h = rw h refl

-- What starts with no space is not trimmed away.
pub trim_space-head :
    (c : ℕ) (s : Text) → is_space c ≡ false → (t : Text) × (trim_space (c ∷ s) ≡ c ∷ t)
unfolding trim_space trim_right
trim_space-head c s h =
    let (t, e) = kept-head c (trim_right s) h in (t, ap trim_left e ∙ left-head c t h)

pub trim_space-nothing : trim_space [] ≡ []
unfolding trim_space trim_left trim_right
trim_space-nothing = refl
