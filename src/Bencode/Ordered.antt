-- ===== src/Bencode/Ordered.antt =====
-- A map is built up again when its keys come in order.
use monogo.Base.{◌≡◌, refl, ap, true, Text}
use monogo.Bencode.{Value, Fields, end, field, less, put}

abbrev pub AllAbove : Text → Fields → Type 0
AllAbove k end = Unit {0}
AllAbove k (field l v fs) = (less k l ≡ true) × AllAbove k fs

abbrev pub append_fields : Fields → Fields → Fields
append_fields end gs = gs
append_fields (field k v fs) gs = field k v (append_fields fs gs)

abbrev pub AllBelow : Fields → Text → Type 0
AllBelow end k = Unit {0}
AllBelow (field l v fs) k = (less l k ≡ true) × AllBelow fs k

-- The keys of the second are above those of the first.
abbrev pub Before : Fields → Fields → Type 0
Before result end = Unit {0}
Before result (field k v fs) = AllBelow result k × Before result fs

pub put-end :
    (k : Text) (v : Value) (fs : Fields)
    → AllBelow fs k
    → put k v fs ≡ append_fields fs (field k v end)
unfolding put
put-end k v end h = refl
put-end k v (field l u fs) (h, hs) = rw h (ap (λ gs. field l u gs) (put-end k v fs hs))

pub append_fields_assoc :
    (fs gs hs : Fields)
    → append_fields (append_fields fs gs) hs ≡ append_fields fs (append_fields gs hs)
append_fields_assoc end gs hs = refl
append_fields_assoc (field k v fs) gs hs = ap (λ r. field k v r) (append_fields_assoc fs gs hs)

below-snoc :
    (fs : Fields) (l k : Text) (v : Value)
    → AllBelow fs k
    → less l k ≡ true
    → AllBelow (append_fields fs (field l v end)) k
below-snoc end l k v h less_than = (less_than, tt)
below-snoc (field m u fs) l k v (h, hs) less_than = (h, below-snoc fs l k v hs less_than)

pub snoc-Before :
    (result : Fields) (k : Text) (v : Value) (fs : Fields)
    → Before result fs
    → AllAbove k fs
    → Before (append_fields result (field k v end)) fs
snoc-Before result k v end h a = tt
snoc-Before result k v (field l u fs) (h, hs) (a, as_above) =
    (below-snoc result k l v h a, snoc-Before result k v fs hs as_above)

pub start-Before : (fs : Fields) → Before end fs
start-Before end = tt
start-Before (field k v fs) = (tt, start-Before fs)

pub append_fields-end : (fs : Fields) → append_fields fs end ≡ fs
append_fields-end end = refl
append_fields-end (field k v fs) = ap (λ gs. field k v gs) (append_fields-end fs)
