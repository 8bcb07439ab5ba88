-- ===== src/Tests/Libtalek.antt =====
-- Two messages, of three bytes and of one, in fragments of seven bytes.
use talek.Base.{ℕ, ◌≡◌, refl, some, List, [], ◌∷◌, map, arith, All, le_bytes, Returns, ok}
use talek.Libtalek.Message.{no_message, receive_all, split, new_message}
use talek.Libtalek.Message.Delivery.{Fits, split_all, receive_all-split_all}

abbrev messages : List (List ℕ)
messages = (1 ∷ 2 ∷ 3 ∷ []) ∷ (9 ∷ []) ∷ []

messages-Fits : All (Fits 7) messages
messages-Fits = omega arith

receive_all-split_all_example :
    Returns
      (split_all 7 messages)
      (λ parts. receive_all no_message parts ≡ (no_message, map some messages))
receive_all-split_all_example = receive_all-split_all 7 messages (omega arith) messages-Fits

split_two :
    split_all 7 messages
    ≡ ok (
        (1 ∷ 3 ∷ 0 ∷ 0 ∷ 0 ∷ 1 ∷ 2 ∷ [])
        ∷ (0 ∷ 1 ∷ 0 ∷ 0 ∷ 0 ∷ 3 ∷ 0 ∷ [])
        ∷ (1 ∷ 1 ∷ 0 ∷ 0 ∷ 0 ∷ 9 ∷ 0 ∷ [])
        ∷ [])
unfolding split_all split new_message le_bytes
split_two = refl
