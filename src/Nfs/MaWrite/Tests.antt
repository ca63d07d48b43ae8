-- ===== src/Nfs/MaWrite/Tests.antt =====
-- A server with a queue of outstanding calls, a run on it, and the theorem there.
use anfs.Base.{
  ℕ, ◌+◌, ◌<◌, ◌≡◌, refl, List, [], ◌∷◌, ◌++◌, length, Bytes, overlay, slice, ltb, arith,
  length-append,
}
use anfs.Nfs.Calls.{Attrstat}
use anfs.Nfs.MWrite.{Writing, done, failed, undefined, stuck}
use anfs.Nfs.MaWrite.{Async, ma_write}
use anfs.Nfs.MaWrite.Server.{AsyncServer, Stores}
use anfs.Nfs.MaWrite.Contents.{ma_write-Stores}

record Queue : Type 0 where
  stored : Bytes
  calls : List (ℕ × List ℕ)

-- The oldest call is executed when its answer is waited for.
abbrev executed : Bytes → List (ℕ × List ℕ) → Bytes
executed f [] = f
executed f ((o, bs) ∷ q) = executed (overlay o bs f) q

abbrev answer : Queue → Queue × Attrstat
answer d = elim d.calls [
  | [] ↦ (d, Attrstat.no_reply)
  | (o, bs) ∷ q ↦
      (record { stored = overlay o bs d.stored; calls = q }, Attrstat.attributes (o + length bs))
]

abbrev queue : Async Queue
queue = record {
  send_write = λ d o bs. (record d { calls = d.calls ++ (o, bs) ∷ [] }, ltb (length d.calls) 2);
  wait_write = answer;
  clnt_abort = λ d. record d { calls = [] };
  clnt_stat = λ d. 0;
}

executed-append :
    (f : Bytes) (q : List (ℕ × List ℕ)) (o : ℕ) (bs : List ℕ) (k : ℕ)
    → executed f (q ++ (o, bs) ∷ []) k ≡ overlay o bs (executed f q) k
executed-append f [] o bs k = refl
executed-append f ((p, cs) ∷ q) o bs k = executed-append (overlay p cs f) q o bs k

wait_takes_off :
    (f : Bytes) (q : List (ℕ × List ℕ)) (n : ℕ)
    → 0 < length q
    → (answer (record { stored = f; calls = q })).1 ≡ Attrstat.attributes n
    → (length (answer (record { stored = f; calls = q })).0.calls + 1 ≡ length q)
      × ((k : ℕ)
          → executed
              (answer (record { stored = f; calls = q })).0.stored
              (answer (record { stored = f; calls = q })).0.calls
              k
            ≡ executed f q k)
wait_takes_off f [] n h e = absurd (omega arith)
wait_takes_off f ((o, bs) ∷ q) n h e = (omega arith, λ k. refl)

no_calls : (f : Bytes) (q : List (ℕ × List ℕ)) → length q ≡ 0 → (k : ℕ) → f k ≡ executed f q k
no_calls f [] h k = refl
no_calls f (x ∷ q) h k = absurd (omega arith)

abbrev queue_server : AsyncServer queue 2
queue_server = record {
  contents = λ d. d.stored;
  settled = λ d. executed d.stored d.calls;
  outstanding = λ d. length d.calls;
  send_adds = λ d o bs h e.
      (length-append d.calls ((o, bs) ∷ []), λ k. executed-append d.stored d.calls o bs k);
  wait_takes = λ d n h e. wait_takes_off d.stored d.calls n h e;
  all_settled = λ d h k. no_calls d.stored d.calls h k;
}

abbrev idle : Queue
idle = record { stored = λ k. k; calls = [] }

abbrev five : List ℕ
five = 21 ∷ 22 ∷ 23 ∷ 24 ∷ 25 ∷ []

abbrev stored_bytes : Writing Queue → List ℕ
stored_bytes (done w n size) = size ∷ slice w.stored 0 9
stored_bytes (failed w e) = []
stored_bytes undefined = []
stored_bytes stuck = []

-- Three calls of at most two bytes, of which two are outstanding at a time
writes_ahead :
    stored_bytes (ma_write queue 2 2 idle 3 five) ≡ 8 ∷ 0 ∷ 1 ∷ 2 ∷ 21 ∷ 22 ∷ 23 ∷ 24 ∷ 25 ∷ 8 ∷ []
unfolding ma_write slice overlay
writes_ahead = refl

ma_write-Stores_example :
    Stores queue 2
      (λ (d : Queue). d.stored)
      (λ d. length d.calls)
      (λ k. k)
      3
      five
      (ma_write queue 2 2 idle 3 five)
ma_write-Stores_example =
    ma_write-Stores queue 2 queue_server 2 idle 3 five refl (omega arith) (omega arith)
      (omega arith)
