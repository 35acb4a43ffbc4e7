-- ===== src/Networking/Threads.antt =====
-- Sends of several threads on one BeastSocket, and the ends of its writes, as steps that interleave. A
-- step is what a thread does under the lock, at the atomic flag, or with the connection.
pub mod Races
use social_gaming_platform.Prelude.{
  ℕ, ◌+◌, ◌-◌, ◌<◌, ◌≡◌, refl, sym, ap, ◌∙◌, Bool, true, false, not, ◌&&◌, Bool-cases, inl, inr,
  List, [], ◌∷◌, ◌++◌, if◌then◌else◌, append_assoc, arith,
}
use social_gaming_platform.Run.{Outcome, threw, ok, undefined, modify, continue, ◌>>=◌, ◌>>◌}
use social_gaming_platform.Networking.BeastSocket.{
  Bytes, Socket, new_socket, take_front, with_connection, do_async_write, next_write, push,
  claim_writing, is_empty, ErrorCode, success, connection_reset, end_of_stream, other_error,
  handle_error,
}

-- `pushed` threads are in `send` between their push and the flag, `starting` threads are about to call
-- _do_async_write, `flying` writes are under way, and `failed` ones ended with an error. `offered` is what
-- has been pushed so far.
pub record Threads : Type 0 where
  pub socket : Socket
  pub pushed : ℕ
  pub starting : ℕ
  pub flying : ℕ
  pub failed : ℕ
  pub offered : List Bytes

abbrev pub at_rest : Threads
at_rest = record {
  socket = new_socket;
  pushed = 0;
  starting = 0;
  flying = 0;
  failed = 0;
  offered = [];
}

-- A step of the socket runs one locked section and leaves the counts to the thread that it is in.
pub data Step : Threads → Threads → Type 0 where
  pushes :
      (d : Bytes) {t : Threads} {s : Socket}
      → push d t.socket ≡ ok tt s
      → Step t (record t { socket = s; pushed = t.pushed + 1; offered = t.offered ++ d ∷ [] })
  claims :
      (spurious : Bool) {t : Threads} {s : Socket}
      → 0 < t.pushed
      → claim_writing spurious t.socket ≡ ok true s
      → Step t (record t { socket = s; pushed = t.pushed - 1; starting = t.starting + 1 })
  misses :
      (spurious : Bool) {t : Threads} {s : Socket}
      → 0 < t.pushed
      → claim_writing spurious t.socket ≡ ok false s
      → Step t (record t { socket = s; pushed = t.pushed - 1 })
  starts :
      {t : Threads} {s : Socket}
      → 0 < t.starting
      → do_async_write t.socket ≡ ok tt s
      → Step t (record t { socket = s; starting = t.starting - 1; flying = t.flying + 1 })
  goes_on :
      {t : Threads} {s : Socket}
      → 0 < t.flying
      → next_write t.socket ≡ ok true s
      → Step t (record t { socket = s; starting = t.starting + 1; flying = t.flying - 1 })
  comes_to_rest :
      {t : Threads} {s : Socket}
      → 0 < t.flying
      → next_write t.socket ≡ ok false s
      → Step t (record t { socket = s; flying = t.flying - 1 })
  fails :
      (ec : ErrorCode) {t : Threads} {s : Socket}
      → 0 < t.flying
      → handle_error ec t.socket ≡ ok true s
      → Step t (record t { socket = s; flying = t.flying - 1; failed = t.failed + 1 })

pub data Reaches : Threads → Type 0 where
  start : Reaches at_rest
  then_step : {t t' : Threads} → Reaches t → Step t t' → Reaches t'

abbrev pub free : Bool → ℕ
free true = 1
free false = 0

pub record Ordered (t : Threads) : Type 0 where
  pub one_writer : t.starting + t.flying + t.failed + free t.socket.write_finished ≡ 1
  pub in_order : t.socket.wire ++ t.socket.write_queue ≡ t.offered

snoc-cons : {A : Type 0} (xs ys : List A) (y : A) → (xs ++ y ∷ []) ++ ys ≡ xs ++ (y ∷ ys)
snoc-cons [] ys y = refl
snoc-cons (x ∷ xs) ys y = ap (λ zs. x ∷ zs) (snoc-cons xs ys y)

-- What the sections of the socket do, where they end without being undefined.
do_async_write_ends :
    (q : List Bytes) (b : Bool) (s : Socket) {s' : Socket}
    → s.write_queue ≡ q
    → s.connection ≡ b
    → do_async_write s ≡ ok tt s'
    → (s'.wire ++ s'.write_queue ≡ s.wire ++ s.write_queue) × (s'.write_finished ≡ s.write_finished)
unfolding do_async_write
do_async_write_ends [] b s e o h = absurd (cc (rw e at h))
do_async_write_ends (d ∷ ds) false s e o h = absurd (cc (rw o at (rw e at h)))
do_async_write_ends (d ∷ ds) true s {s'} e o h =
    let after : Socket = record s { write_queue = ds; wire = s.wire ++ d ∷ [] } in
    let runs : do_async_write s ≡ ok tt after =
      ap
        (λ q.
          continue (take_front q s)
            (λ x. with_connection (modify (λ u. record u { wire = u.wire ++ x ∷ [] }))))
        e
      ∙ ap (λ c. if c then ok tt after else undefined) o in
    let same : after ≡ s' = cc (sym runs ∙ h) in
    (
      ap (λ x. x.wire ++ x.write_queue) (sym same)
          ∙ snoc-cons s.wire ds d
          ∙ ap (λ q. s.wire ++ q) (sym e),
      ap (λ x. x.write_finished) (sym same),
    )

claim_writing-true :
    (spurious : Bool) (s : Socket) {s' : Socket}
    → claim_writing spurious s ≡ ok true s'
    → (s.write_finished ≡ true) × (record s { write_finished = false } ≡ s')
unfolding claim_writing
claim_writing-true b s h = elim (Bool-cases (s.write_finished && not b)) [
  | inl e ↦ let run = rw e at h in (ground arith, cc run)
  | inr e ↦ absurd (cc (rw e at h))
]

claim_writing-false :
    (spurious : Bool) (s : Socket) {s' : Socket} → claim_writing spurious s ≡ ok false s' → s ≡ s'
unfolding claim_writing
claim_writing-false b s h = elim (Bool-cases (s.write_finished && not b)) [
  | inl e ↦ absurd (cc (rw e at h))
  | inr e ↦ let run = rw e at h in cc run
]

next_write-true : (s : Socket) {s' : Socket} → next_write s ≡ ok true s' → s ≡ s'
unfolding next_write
next_write-true s h = elim (Bool-cases (is_empty s.write_queue)) [
  | inl e ↦ absurd (cc (rw e at h))
  | inr e ↦ let run = rw e at h in cc run
]

next_write-false :
    (s : Socket) {s' : Socket}
    → next_write s ≡ ok false s'
    → record s { write_finished = true } ≡ s'
unfolding next_write
next_write-false s h = elim (Bool-cases (is_empty s.write_queue)) [
  | inl e ↦ let run = rw e at h in cc run
  | inr e ↦ absurd (cc (rw e at h))
]

abbrev socket_of : Socket → Outcome Socket Bool → Socket
socket_of s (ok b s') = s'
socket_of s (threw e s') = s'
socket_of s undefined = s

handle_error-kept :
    (ec : ErrorCode) (s : Socket)
    → (let s' = socket_of s (handle_error ec s) in
        ((s'.wire ++ s'.write_queue) ≡ (s.wire ++ s.write_queue))
        × (s'.write_finished ≡ s.write_finished))
unfolding handle_error
handle_error-kept success s = (refl, refl)
handle_error-kept connection_reset s = (refl, refl)
handle_error-kept end_of_stream s = (refl, refl)
handle_error-kept other_error s = (refl, refl)

-- Handling an error leaves the data and the flag as they were.
handle_error-true :
    (ec : ErrorCode) (s : Socket) {s' : Socket}
    → handle_error ec s ≡ ok true s'
    → (s'.wire ++ s'.write_queue ≡ s.wire ++ s.write_queue) × (s'.write_finished ≡ s.write_finished)
handle_error-true ec s {s'} h =
    let same : socket_of s (handle_error ec s) ≡ s' = ap (socket_of s) h in
    let (kept, flag) = handle_error-kept ec s in
    (
      ap (λ x. x.wire ++ x.write_queue) (sym same) ∙ kept,
      ap (λ x. x.write_finished) (sym same) ∙ flag,
    )

Step-Ordered : {t t' : Threads} → Step t t' → Ordered t → Ordered t'
unfolding push
Step-Ordered (pushes d {t} {s} e) v =
    let same : record t.socket { write_queue = t.socket.write_queue ++ d ∷ [] } ≡ s = cc e in
    record {
      one_writer = omega (arith, ap (λ x. free x.write_finished) same, v.one_writer);
      in_order =
          ap (λ x. x.wire ++ x.write_queue) (sym same)
          ∙ sym (append_assoc t.socket.wire t.socket.write_queue (d ∷ []))
          ∙ ap (λ q. q ++ d ∷ []) v.in_order;
    }
Step-Ordered (claims b {t} {s} p e) v =
    let (was_free, same) = claim_writing-true b t.socket e in
    record {
      one_writer =
          omega (arith, ap (λ x. free x.write_finished) same, ap free was_free, v.one_writer);
      in_order = ap (λ x. x.wire ++ x.write_queue) (sym same) ∙ v.in_order;
    }
Step-Ordered (misses b {t} {s} p e) v =
    let same = claim_writing-false b t.socket e in
    record {
      one_writer = omega (arith, ap (λ x. free x.write_finished) same, v.one_writer);
      in_order = ap (λ x. x.wire ++ x.write_queue) (sym same) ∙ v.in_order;
    }
Step-Ordered (starts {t} {s} p e) v =
    let (kept, same) =
      do_async_write_ends t.socket.write_queue t.socket.connection t.socket refl refl e in
    record {
      one_writer = omega (arith, ap free same, p, v.one_writer);
      in_order = kept ∙ v.in_order;
    }
Step-Ordered (goes_on {t} {s} p e) v =
    let same = next_write-true t.socket e in
    record {
      one_writer = omega (arith, ap (λ x. free x.write_finished) same, p, v.one_writer);
      in_order = ap (λ x. x.wire ++ x.write_queue) (sym same) ∙ v.in_order;
    }
Step-Ordered (comes_to_rest {t} {s} p e) v =
    let same = next_write-false t.socket e in
    record {
      one_writer = omega (arith, ap (λ x. free x.write_finished) same, p, v.one_writer);
      in_order = ap (λ x. x.wire ++ x.write_queue) (sym same) ∙ v.in_order;
    }
Step-Ordered (fails ec {t} {s} p e) v =
    let (kept, same) = handle_error-true ec t.socket e in
    record {
      one_writer = omega (arith, ap free same, p, v.one_writer);
      in_order = kept ∙ v.in_order;
    }

-- However the threads interleave, and whether writes succeed or fail, at most one thread writes or is about
-- to, or one write has failed and nobody writes after it; the atomic flag is up exactly where none of
-- these is the case. What was written, with the queue after it, is what was pushed, in that order.
pub Reaches-Ordered : {t : Threads} → Reaches t → Ordered t
Reaches-Ordered start = record { one_writer = refl; in_order = refl }
Reaches-Ordered (then_step r m) = Step-Ordered m (Reaches-Ordered r)
