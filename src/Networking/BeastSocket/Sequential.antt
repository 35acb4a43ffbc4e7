-- ===== src/Networking/BeastSocket/Sequential.antt =====
-- Sends that do not overlap.
use social_gaming_platform.Prelude.{
  ◌≡◌, ◌⊎◌, inl, inr, refl, sym, ap, ◌∙◌, Bool, true, false, List, [], ◌∷◌, ◌++◌, if◌then◌else◌,
  Bool-cases, append_assoc,
}
use social_gaming_platform.Run.{Run, ok, undefined, pure, continue, ◌>>◌}
use social_gaming_platform.Networking.BeastSocket.{
  Bytes, ErrorCode, success, Socket, new_socket, take_front, do_async_write, handle_error,
  next_write, on_async_write, push, claim_writing, send,
}

-- A send that runs through before the next call, with whether its exchange fails for no reason, and the end
-- of a write with its error code. A write ends only if one was started.
pub data Call : Type 0 where
  sending : Bool → Bytes → Call
  written : ErrorCode → Call

unfoldable pub call : Call → Run Socket (Unit {0})
unfolding send on_async_write
call (sending spurious d) s = send spurious d s
call (written ec) s = if s.write_finished then ok tt s else on_async_write ec s

unfoldable pub run_calls : List Call → Run Socket (Unit {0})
unfolding call
run_calls [] = pure tt
run_calls (c ∷ cs) = do call c; run_calls cs

abbrev pub data_of : List Call → List Bytes
data_of [] = []
data_of (sending spurious d ∷ cs) = d ∷ data_of cs
data_of (written ec ∷ cs) = data_of cs

-- No exchange fails without a reason, and no write ends with an error.
abbrev pub Clean : Call → Type 0
Clean (sending spurious d) = spurious ≡ false
Clean (written ec) = ec ≡ success

abbrev pub AllClean : List Call → Type 0
AllClean [] = Unit {0}
AllClean (c ∷ cs) = Clean c × AllClean cs

-- The socket is open, and nothing waits in the queue unless a write is under way.
pub record Steady (s : Socket) : Type 0 where
  pub open_connection : s.connection ≡ true
  pub nothing_waits : (s.write_finished ≡ false) ⊎ (s.write_queue ≡ [])

snoc-cons : {A : Type 0} (xs ys : List A) (y : A) → xs ++ (y ∷ ys) ≡ (xs ++ y ∷ []) ++ ys
snoc-cons [] ys y = refl
snoc-cons (x ∷ xs) ys y = ap (λ zs. x ∷ zs) (snoc-cons xs ys y)

append-nil : {A : Type 0} (xs : List A) → xs ++ [] ≡ xs
append-nil [] = refl
append-nil (x ∷ xs) = ap (λ zs. x ∷ zs) (append-nil xs)

-- What one call does to the data that a socket was given.
abbrev Adds : Run Socket (Unit {0}) → List Bytes → Socket → Type 0
Adds m new s =
    (s' : Socket) × (m s ≡ ok tt s')
    × Steady s'
    × (s'.wire ++ s'.write_queue ≡ (s.wire ++ s.write_queue) ++ new)

do_async_write_lem :
    (d : Bytes) (ds : List Bytes) (s : Socket)
    → s.write_queue ≡ d ∷ ds
    → s.connection ≡ true
    → do_async_write s ≡ ok tt (record s { write_queue = ds; wire = s.wire ++ d ∷ [] })
unfolding do_async_write
do_async_write_lem d ds s e o = rw (e, take_front) (rw o refl)

-- A send while a write is under way only queues its data.
send-busy :
    (d : Bytes) (s : Socket) → s.write_finished ≡ false → Steady s → Adds (send false d) (d ∷ []) s
unfolding send push claim_writing
send-busy d s busy v = (
  record s { write_queue = s.write_queue ++ d ∷ [] },
  rw busy refl,
  record { open_connection = v.open_connection; nothing_waits = inl busy },
  sym (append_assoc s.wire s.write_queue (d ∷ [])),
)

-- A send while nothing is written starts to write its data.
send-idle :
    (d : Bytes) (s : Socket)
    → s.write_finished ≡ true
    → s.write_queue ≡ []
    → Steady s
    → Adds (send false d) (d ∷ []) s
unfolding send push claim_writing
send-idle d s idle empty v =
    let waiting : Socket = record s {
      write_queue = s.write_queue ++ d ∷ [];
      write_finished = false;
    } in
    (
      record s { write_finished = false; write_queue = []; wire = s.wire ++ d ∷ [] },
      rw idle (do_async_write_lem d [] waiting (ap (λ q. q ++ d ∷ []) empty) v.open_connection),
      record { open_connection = v.open_connection; nothing_waits = inl refl },
      append-nil (s.wire ++ d ∷ [])
          ∙ ap (λ q. q ++ d ∷ []) (sym (ap (λ q. s.wire ++ q) empty ∙ append-nil s.wire)),
    )

send-Adds : (d : Bytes) (s : Socket) → Steady s → Adds (send false d) (d ∷ []) s
send-Adds d s v = elim (Bool-cases s.write_finished) [
  | inl idle ↦ elim v.nothing_waits [
    | inl busy ↦ absurd (cc (sym idle ∙ busy))
    | inr empty ↦ send-idle d s idle empty v
  ]
  | inr busy ↦ send-busy d s busy v
]

-- The end of a write starts the next one, if there is data.
written-Adds :
    (q : List Bytes) (s : Socket)
    → s.write_queue ≡ q
    → s.write_finished ≡ false
    → Steady s
    → Adds (on_async_write success) [] s
unfolding on_async_write next_write handle_error
written-Adds [] s e busy v = (
  record s { write_finished = true },
  rw e refl,
  record { open_connection = v.open_connection; nothing_waits = inr e },
  sym (append-nil (s.wire ++ s.write_queue)),
)
written-Adds (d ∷ ds) s e busy v = (
  record s { write_queue = ds; wire = s.wire ++ d ∷ [] },
  rw e (
      ap
        (λ b.
          if b then ok tt (record s { write_queue = ds; wire = s.wire ++ d ∷ [] }) else undefined)
        v.open_connection),
  record { open_connection = v.open_connection; nothing_waits = inl busy },
  sym (snoc-cons s.wire ds d)
      ∙ ap (λ q. s.wire ++ q) (sym e)
      ∙ sym (append-nil (s.wire ++ s.write_queue)),
)

call-Adds : (c : Call) (s : Socket) → Clean c → Steady s → Adds (call c) (data_of (c ∷ [])) s
unfolding call
call-Adds (sending spurious d) s e v = rw e (send-Adds d s v)
call-Adds (written ec) s e v = rw e elim (Bool-cases s.write_finished) [
  | inl idle ↦ (
    s,
    ap (λ b. if b then ok tt s else on_async_write success s) idle,
    v,
    sym (append-nil (s.wire ++ s.write_queue)),
  )
  | inr busy ↦
      let (s', ran, v', kept) = written-Adds s.write_queue s refl busy v in
      (s', ap (λ b. if b then ok tt s else on_async_write success s) busy ∙ ran, v', kept)
]

data_of-cons : (c : Call) (cs : List Call) → data_of (c ∷ cs) ≡ data_of (c ∷ []) ++ data_of cs
data_of-cons (sending spurious d) cs = refl
data_of-cons (written ec) cs = refl

run_calls-Adds :
    (cs : List Call) (s : Socket) → AllClean cs → Steady s → Adds (run_calls cs) (data_of cs) s
unfolding run_calls
run_calls-Adds [] s a v = (s, refl, v, sym (append-nil (s.wire ++ s.write_queue)))
run_calls-Adds (c ∷ cs) s (a, as') v =
    let (s1, ran, v1, kept) = call-Adds c s a v in
    let (s2, ran', v2, kept') = run_calls-Adds cs s1 as' v1 in
    (
      s2,
      ap (λ o. continue o (λ _. run_calls cs)) ran ∙ ran',
      v2,
      kept'
          ∙ ap (λ q. q ++ data_of cs) kept
          ∙ append_assoc (s.wire ++ s.write_queue) (data_of (c ∷ [])) (data_of cs)
          ∙ ap (λ q. (s.wire ++ s.write_queue) ++ q) (sym (data_of-cons c cs)),
    )

-- Sends to a new socket that do not overlap, and ends of writes, in any order, where no exchange of the flag
-- fails without a reason and no write ends with an error: no call is undefined, the
-- data is written in the order in which it was sent, with the rest of it queued in that order, and nothing
-- is queued unless a write is under way.
pub run_calls_lem :
    (cs : List Call)
    → AllClean cs
    → (s : Socket) × (run_calls cs new_socket ≡ ok tt s)
      × (s.wire ++ s.write_queue ≡ data_of cs)
      × ((s.write_finished ≡ false) ⊎ (s.write_queue ≡ []))
run_calls_lem cs clean =
    let start : Steady new_socket = record { open_connection = refl; nothing_waits = inr refl } in
    let (s, ran, v, kept) = run_calls-Adds cs new_socket clean start in
    (s, ran, kept, v.nothing_waits)
