-- ===== src/Tests/Topic.antt =====
-- A topic that publishes two messages in items of 92 bytes, and a handle that polls and scans.
use talek.Base.{
  ℕ, ◌≡◌, refl, true, some, List, [], ◌∷◌, arith, All, le_bytes, replicate, slice?, Returns, ok,
}
use talek.Libtalek.Message.Delivery.{Fits, split_all}
use talek.Libtalek.Handle.{next_buckets, seqno_bytes, remove_pads, retrieve_response, generate_poll}
use talek.Common.ReadArgs.{PirArgs}
use talek.Drbg.Seed.{unmarshal_binary}
use talek.Drbg.HashDrbg.{from_seed}
use talek.Libtalek.Handle.Scan.{Scans, retrieve_response-Scans}
use talek.Libtalek.Handle.Polls.{AsksBoth, generate_poll-AsksBoth}
use talek.Libtalek.Topic.Publishing.{publish_all}
use talek.Libtalek.Topic.Reception.{DeliversAll, publish_all-delivers}
use talek.Tests.Crypto.{toy, toy_handle, toy_topic, toy-Follows, ones, ones-Fills, ones-FillsSeeds}

abbrev words : List (List ℕ)
words = (1 ∷ 2 ∷ 3 ∷ 4 ∷ 5 ∷ 6 ∷ 7 ∷ 8 ∷ 9 ∷ []) ∷ (10 ∷ []) ∷ []

words-Fits : All (Fits 12) words
words-Fits = omega arith

publish_all-delivers_example :
    Returns
      (split_all 12 words)
      (λ parts. Returns (publish_all toy 8 toy_topic parts) (DeliversAll toy 92 toy_handle words))
publish_all-delivers_example =
    publish_all-delivers toy 8 92 toy_topic toy_handle words (omega arith) (omega arith) words-Fits
      toy-Follows refl

abbrev td : List PirArgs
td = record { request_vector = 1 ∷ []; pad_seed = replicate 24 1 } ∷ []

generate_poll-AsksBoth_example : Returns (next_buckets toy toy_handle 16) (λ b.
    Returns (generate_poll toy true (λ _. ones) (λ _. ones) toy_handle 2 16) (AsksBoth 2 16 b))
generate_poll-AsksBoth_example =
    generate_poll-AsksBoth toy true (λ _. ones) (λ _. ones) toy_handle (1 ∷ 2 ∷ []) (4 ∷ []) 2 16
      (λ k. ones-Fills) (λ k. ones-FillsSeeds) refl refl (omega arith) (omega arith) (omega arith)
      (omega arith) (omega arith)

unpadded_made : remove_pads toy td (replicate 8 0) ≡ ok (some (24 ∷ 8 ∷ replicate 6 0))
unfolding remove_pads toy unmarshal_binary from_seed slice? le_bytes
unpadded_made = refl

retrieve_response-Scans_example : Returns (seqno_bytes toy_handle.seqno) (λ nonce.
    Scans toy toy_handle 4 nonce
      (24 ∷ 8 ∷ replicate 6 0)
      0
      (retrieve_response toy toy_handle td (replicate 8 0) 4))
retrieve_response-Scans_example =
    retrieve_response-Scans toy toy_handle td (replicate 8 0) (24 ∷ 8 ∷ replicate 6 0) 4
      (omega arith) (omega arith) unpadded_made
