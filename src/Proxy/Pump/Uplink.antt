-- ===== src/Proxy/Pump/Uplink.antt =====
-- The steps of the uplink of a connection keep its order.
use github_codespaces_proxy.Base.{
  ◌≡◌, refl, sym, ap, ◌∙◌, append-nil, append_assoc, Bool, true, false, List, [], ◌∷◌, ◌++◌, arith,
  if◌then◌else◌, Bytes,
}
use github_codespaces_proxy.Proxy.Pump.{
  took, took_end, wrote, push_called, push_end_called, Kind, connect, plain_http, Conn, started,
  act, open_flag, open_greeting, push_all, open_flush, open_end, on_open, pump_chunk, pump_end,
  read_chunk, read_end, pump_stop, established,
}
use github_codespaces_proxy.Proxy.Pump.Steps.{
  Step, opens, fails, receives, closes, reads, ends, waits, stops, finishes, Reachable, start, step,
  gather, taken, offered, ended, end_told, head_of, marks, IsOrdered, waiting, flowing,
}
use github_codespaces_proxy.Proxy.Pump.Order.{
  gather-append, same, IsOrdered-stop, on_error-IsOrdered, on_data-IsOrdered, on_close-IsOrdered,
  finish-IsOrdered, read_nothing-IsOrdered,
}

pump_chunk-IsOrdered :
    (kind : Kind) (chunk : Bytes) (opened push_ok : Bool) (c : Conn)
    → c.opened ≡ opened
    → c.pumping ≡ true
    → IsOrdered kind c
    → IsOrdered kind (pump_chunk chunk opened push_ok (act (took chunk) c))
unfolding pump_chunk act taken offered ended end_told
pump_chunk-IsOrdered kind chunk true ok c e k (waiting p q r s u v) = absurd (ground arith)
pump_chunk-IsOrdered kind chunk true ok c e k (flowing p q r s v) =
    let log = c.log ++ took chunk ∷ [] in
    flowing e q
      (gather-append offered log (push_called chunk)
        ∙ ap (λ z. z ++ chunk ∷ []) (same offered c.log (took chunk) refl ∙ r)
        ∙ append_assoc (head_of kind) (gather taken c.log) (chunk ∷ [])
        ∙ ap (λ z. head_of kind ++ z)
            (sym
              (same taken log (push_called chunk) refl ∙ gather-append taken c.log (took chunk))))
      (same end_told log (push_called chunk) refl
        ∙ same end_told c.log (took chunk) refl
        ∙ s
        ∙ sym (same ended log (push_called chunk) refl ∙ same ended c.log (took chunk) refl))
      (λ l. same ended log (push_called chunk) refl ∙ same ended c.log (took chunk) refl ∙ v k)
pump_chunk-IsOrdered kind chunk false ok c e k (flowing p q r s v) = absurd (ground arith)
pump_chunk-IsOrdered kind chunk false ok c e k (waiting p q r s u v) =
    waiting e (same offered c.log (took chunk) refl ∙ q)
      (ap (λ z. z ++ chunk ∷ []) r ∙ sym (gather-append taken c.log (took chunk)))
      (same end_told c.log (took chunk) refl ∙ s) (u ∙ sym (same ended c.log (took chunk) refl))
      (λ l. same ended c.log (took chunk) refl ∙ v l)

pump_end-IsOrdered :
    (kind : Kind) (opened : Bool) (c : Conn)
    → c.opened ≡ opened
    → c.pumping ≡ true
    → IsOrdered kind c
    → IsOrdered kind (pump_end opened (act took_end c))
unfolding pump_end act taken offered ended end_told
pump_end-IsOrdered kind true c e k (waiting p q r s u v) = absurd (ground arith)
pump_end-IsOrdered kind true c e k (flowing p q r s v) =
    let log = c.log ++ took_end ∷ [] in
    flowing e q
      (same offered log push_end_called refl
        ∙ same offered c.log took_end refl
        ∙ r
        ∙ ap (λ z. head_of kind ++ z)
            (sym (same taken log push_end_called refl ∙ same taken c.log took_end refl)))
      (gather-append end_told log push_end_called
        ∙ ap (λ z. z ++ [] ∷ []) (same end_told c.log took_end refl ∙ s)
        ∙ sym (same ended log push_end_called refl ∙ gather-append ended c.log took_end))
      (λ l. absurd (ground arith))
pump_end-IsOrdered kind false c e k (flowing p q r s v) = absurd (ground arith)
pump_end-IsOrdered kind false c e k (waiting p q r s u v) =
    waiting e (same offered c.log took_end refl ∙ q) (r ∙ sym (same taken c.log took_end refl))
      (same end_told c.log took_end refl ∙ s)
      (sym (gather-append ended c.log took_end ∙ ap (λ z. z ++ [] ∷ []) (v k)))
      (λ l. absurd (ground arith))

-- `d` is `c` after the chunks were handed to the tunnel.
data IsPushed (chunks : List Bytes) (c d : Conn) : Type 0 where
  pushed :
      d.opened ≡ c.opened
      → d.half_pending ≡ c.half_pending
      → d.pumping ≡ c.pumping
      → d.pending ≡ c.pending
      → gather offered d.log ≡ gather offered c.log ++ chunks
      → gather taken d.log ≡ gather taken c.log
      → gather ended d.log ≡ gather ended c.log
      → gather end_told d.log ≡ gather end_told c.log
      → IsPushed chunks c d

push_all-IsPushed : (chunks : List Bytes) (c : Conn) → IsPushed chunks c (push_all chunks c)
unfolding push_all act taken offered ended end_told
push_all-IsPushed [] c =
    pushed refl refl refl refl (sym (append-nil (gather offered c.log))) refl refl refl
push_all-IsPushed (b ∷ chunks) c = elim (push_all-IsPushed chunks (act (push_called b) c)) [
  | pushed o h p e q r s t ↦
      pushed o h p e
        (q
          ∙ ap (λ z. z ++ chunks) (gather-append offered c.log (push_called b))
          ∙ append_assoc (gather offered c.log) (b ∷ []) chunks)
        (r ∙ same taken c.log (push_called b) refl) (s ∙ same ended c.log (push_called b) refl)
        (t ∙ same end_told c.log (push_called b) refl)
]

greeting-IsPushed : (kind : Kind) (c : Conn) → IsPushed (head_of kind) c (open_greeting kind c)
unfolding open_greeting head_of act taken offered ended end_told
greeting-IsPushed connect c =
    pushed refl refl refl refl
      (same offered c.log (wrote established) refl ∙ sym (append-nil (gather offered c.log)))
      (same taken c.log (wrote established) refl) (same ended c.log (wrote established) refl)
      (same end_told c.log (wrote established) refl)
greeting-IsPushed (plain_http head) c =
    pushed refl refl refl refl (gather-append offered c.log (push_called head))
      (same taken c.log (push_called head) refl) (same ended c.log (push_called head) refl)
      (same end_told c.log (push_called head) refl)

open_end-IsOrdered :
    (kind : Kind) (half : Bool) (c : Conn)
    → c.opened ≡ true
    → c.pending ≡ []
    → gather offered c.log ≡ head_of kind ++ gather taken c.log
    → gather end_told c.log ≡ []
    → marks half ≡ gather ended c.log
    → (c.pumping ≡ true → gather ended c.log ≡ [])
    → IsOrdered kind (if half then act push_end_called c else c)
unfolding act taken offered ended end_told
open_end-IsOrdered kind true c o p q r s t =
    flowing o p
      (same offered c.log push_end_called refl
        ∙ q
        ∙ ap (λ z. head_of kind ++ z) (sym (same taken c.log push_end_called refl)))
      (gather-append end_told c.log push_end_called
        ∙ ap (λ z. z ++ [] ∷ []) r
        ∙ s
        ∙ sym (same ended c.log push_end_called refl))
      (λ k. same ended c.log push_end_called refl ∙ t k)
open_end-IsOrdered kind false c o p q r s t = flowing o p q (r ∙ s) t

on_open-IsOrdered :
    (kind : Kind) (c : Conn) → c.opened ≡ false → IsOrdered kind c → IsOrdered kind (on_open kind c)
unfolding on_open open_end open_flush open_flag
on_open-IsOrdered kind c e (flowing p q r s v) = absurd (ground arith)
on_open-IsOrdered kind c e (waiting p q r s u v) =
    let shown = record c { opened = true } in
    let greeted = open_greeting kind shown in
    elim (greeting-IsPushed kind shown) [
      | pushed o h l n a b f g ↦ elim (push_all-IsPushed greeted.pending greeted) [
        | pushed o' h' l' n' a' b' f' g' ↦
            let final = push_all greeted.pending greeted in
            open_end-IsOrdered kind final.half_pending (record final { pending = [] }) (o' ∙ o) refl
              (a'
                ∙ ap (λ z. z ++ greeted.pending) (a ∙ ap (λ z. z ++ head_of kind) q)
                ∙ ap (λ z. head_of kind ++ z) (n ∙ r ∙ sym (b' ∙ b)))
              (g' ∙ g ∙ s) (ap marks (h' ∙ h) ∙ u ∙ sym (f' ∙ f))
              (λ k. f' ∙ f ∙ v (sym (l' ∙ l) ∙ k))
      ]
    ]

step-IsOrdered : (kind : Kind) (c d : Conn) → IsOrdered kind c → Step kind c d → IsOrdered kind d
unfolding read_chunk read_end pump_stop
step-IsOrdered kind _ _ h (opens c e) = on_open-IsOrdered kind c e h
step-IsOrdered kind _ _ h (fails message c) = on_error-IsOrdered kind message c h
step-IsOrdered kind _ _ h (receives data_ c) = on_data-IsOrdered kind data_ c h
step-IsOrdered kind _ _ h (closes c) = on_close-IsOrdered kind c h
step-IsOrdered kind _ _ h (reads chunk ok c p v) =
    pump_chunk-IsOrdered kind chunk c.opened ok c refl p h
step-IsOrdered kind _ _ h (ends c p v) = pump_end-IsOrdered kind c.opened c refl p h
step-IsOrdered kind _ _ h (waits c p v) = read_nothing-IsOrdered kind c h
step-IsOrdered kind _ _ h (stops c v) = IsOrdered-stop kind c h
step-IsOrdered kind _ _ h (finishes c p) = finish-IsOrdered kind c h

-- In every state that a connection of the local proxy reaches, each callback of its session and
-- each round of its pump run on its own, one of two things holds. Before the session opens,
-- nothing was handed to the tunnel, the chunks that were read are pending in their order, and an
-- end of the local socket is remembered. Afterwards nothing is pending, and the calls of push were
-- those for the head, if there is one, and for every chunk that was read, in order, with one call
-- of pushEnd for each end that was read.
pub Reachable-IsOrdered : (kind : Kind) (c : Conn) → Reachable kind c → IsOrdered kind c
unfolding started gather
Reachable-IsOrdered kind _ start = waiting refl refl refl refl refl (λ k. refl)
Reachable-IsOrdered kind _ (step b c r s) = step-IsOrdered kind b c (Reachable-IsOrdered kind b r) s
