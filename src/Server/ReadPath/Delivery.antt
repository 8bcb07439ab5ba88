-- ===== src/Server/ReadPath/Delivery.antt =====
-- A fragment that a topic wrote and that stands in a bucket of the database reaches a handle that
-- reads the bucket through the frontend.
use talek.Base.{
  ℕ, ◌+◌, ◌%◌, ◌≤◌, ◌≡◌, sym, ap, ◌∙◌, Option, none, some, List, [], ◌∷◌, ◌++◌, arith, All, length,
  concat, Returns, ok_injective, ok,
}
use talek.Common.Protocol.{ReadReply}
use talek.Common.Encoding.{Codec}
use talek.Pir.ShardCpu.{ShardCpu}
use talek.Pir.ShardCpu.Answer.{IsWellFormed, bucket_of}
use talek.Libtalek.Message.{receive}
use talek.Libtalek.Message.Sizes.{HasLength}
use talek.Libtalek.Handle.{Primitives, Handle, advance_seqno, seqno_bytes, decrypt, on_response}
use talek.Libtalek.Handle.Scan.{IsForeign}
use talek.Libtalek.Topic.{Topic, WriteArgs, generate_publish}
use talek.Libtalek.Topic.Publishing.{Follows, generate_publish_lem}
use talek.Libtalek.Topic.Reception.{on_response-Answers}
use talek.Server.Frontend.{Frontend, trigger_batch_read}
use talek.Server.ReadPath.{
  Reader, readers, Query, IsQuery, AreReaders, AllGet, trigger_batch_read-AllGet,
}

-- The bucket holds the write, after other messages of the same size that do not decrypt with the
-- nonce.
pub record Holds (p : Primitives) (size : ℕ) (h : Handle) (contents bucket : List ℕ) : Type 0 where
  pub nonce : List ℕ
  pub nonce_of : seqno_bytes h.seqno ≡ ok nonce
  pub foreign : List (List ℕ)
  pub after : List ℕ
  pub shape : bucket ≡ concat foreign ++ (contents ++ after)
  pub same_size : All (HasLength size) foreign
  pub not_decrypted : All (IsForeign p h nonce) foreign

-- What OnResponse makes of the reply to the query.
abbrev pub Receives : Primitives → ℕ → Handle → List ℕ → Query → List (Option ReadReply) → Type 0
Receives p size h message q [] = ⊥
Receives p size h message q (none ∷ rs) = ⊥
Receives p size h message q (some r ∷ rs) =
    on_response p h q.td r.contents size
    ≡ ok (
      record (advance_seqno h) { partial_message = (receive h.partial_message message).0 },
      (receive h.partial_message message).1,
    )

-- For a well-formed database of a multiple of 8 buckets that all the replicas of a frontend serve,
-- each with its index and private key, a read of a bucket in range made by a client with their
-- keys, and a handle that follows a topic: if the topic's publication of a message is a write whose
-- contents fill an item of that bucket, after items of the same size that do not decrypt with the
-- handle's nonce, then a batch of that one read returns normally with a reply, from which
-- OnResponse removes the pads, decrypts the message, joins it to the handle's partial message,
-- sends what is complete and advances the handle.
pub on_response-trigger_batch_read :
    (p : Primitives) (c : Codec) (s : ShardCpu) (pairs : List (List ℕ × List ℕ))
    (window_size size : ℕ) (fe : Frontend Reader) (q : Query) (t t' : Topic) (h : Handle)
    (w : WriteArgs) (message : List ℕ)
    → IsWellFormed s
    → s.num_buckets % 8 ≡ 0
    → 1 ≤ length fe.replicas
    → length pairs ≡ length fe.replicas
    → AreReaders s pairs 1 0 fe.replicas
    → IsQuery c s pairs q
    → Follows p t h
    → generate_publish p t s.num_buckets message ≡ ok (t', w)
    → length message + 80 ≡ size
    → Holds p size h w.contents (bucket_of s q.bucket)
    → Returns
        (trigger_batch_read (readers p c) window_size fe (some q.sent ∷ []))
        (Receives p size h message q)
on_response-trigger_batch_read p c s pairs window_size size fe q t t' h w message well whole
      some_replica same are query f published long holds =
    let (replies, run, gets) =
      trigger_batch_read-AllGet p c s pairs window_size fe (q ∷ []) well whole some_replica same are
        (query, tt) in
    (replies, run, received replies gets)
  where
    received :
        (replies : List (Option ReadReply))
        → AllGet p s (q ∷ []) replies
        → Receives p size h message q replies
    received [] gets = gets
    received (none ∷ rs) gets = gets
    received (some r ∷ rs) (_, got, _) =
        let ((t2, w2), run, (longer, _, _, _, _, (nonce, run_n, own))) =
          generate_publish_lem p s.num_buckets (omega (arith, query.inside)) t h message f in
        let same_write : w2 ≡ w = ap (λ x. x.1) (ok_injective (sym run ∙ published)) in
        on_response-Answers p size (omega arith) h h.partial_message w q.td r.contents message nonce
          f.listening (ap (λ x. length x.contents) (sym same_write) ∙ longer ∙ long) run_n
          (ap (λ x. decrypt p h x.contents nonce) (sym same_write) ∙ own)
          (record {
            nonce = holds.nonce;
            nonce_of = holds.nonce_of;
            foreign = holds.foreign;
            after = holds.after;
            removed = got ∙ ap (λ b. ok (some b)) holds.shape;
            same_size = holds.same_size;
            not_decrypted = holds.not_decrypted;
          })
