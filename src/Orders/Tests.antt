-- ===== src/Orders/Tests.antt =====
-- Runs of `AddSign` and `getNextOrder`.
use left_my_codes.Base.{ℕ, ◌≡◌, refl, some, [], ◌∷◌, ◌++◌, arith, replicate, Bytes, codes, IsText}
use left_my_codes.Orders.{add_sign}
use left_my_codes.Orders.Pieces.{words}
use left_my_codes.Orders.Next.{next_orders, next_orders-add_sign}

abbrev sign : ℕ
sign = 59

abbrev text : Bytes
text = codes "go;;stop;;;now"

abbrev room : Bytes
room = replicate 20 9

text-IsText : IsText text
text-IsText = ground arith

text-words : words sign text ≡ codes "go" ∷ codes "stop" ∷ codes "now" ∷ []
text-words = refl

next_orders-add_sign_example :
    (out : Bytes) × (add_sign (some (text ++ 0 ∷ [])) (some room) sign ≡ some (0, some out))
    × (next_orders 4 out room 5 sign ≡ some (codes "go" ∷ codes "stop" ∷ codes "now" ∷ []))
next_orders-add_sign_example =
    next_orders-add_sign sign 5 text [] room room (omega arith) text-IsText (omega arith)
      (ground arith) (omega arith)
