-- ===== src/Proxy/Pump/Order.antt =====
-- The steps of a connection that leave its uplink alone keep its order.
use github_codespaces_proxy.Base.{
  ◌≡◌, refl, sym, ap, ◌∙◌, append-nil, append_assoc, Bool, true, false, not, List, [], ◌∷◌, ◌++◌,
  arith, if◌then◌else◌, Bytes,
}
use github_codespaces_proxy.Proxy.Pump.{
  Act, wrote, shut_write, sock_closed, session_closed, Kind, Conn, act, close_sock, on_error,
  on_data, on_close, read_nothing, finish,
}
use github_codespaces_proxy.Proxy.Pump.Steps.{
  gather, taken, offered, ended, end_told, head_of, IsOrdered, waiting, flowing,
}

pub gather-append :
    (f : Act → List Bytes) (log : List Act) (a : Act)
    → gather f (log ++ a ∷ []) ≡ gather f log ++ f a
unfolding gather
gather-append f [] a = append-nil (f a)
gather-append f (b ∷ log) a =
    ap (λ z. f b ++ z) (gather-append f log a) ∙ sym (append_assoc (f b) (gather f log) (f a))

-- An act that is neither of the uplink nor of its source.
data IsAside (a : Act) : Type 0 where
  aside : taken a ≡ [] → offered a ≡ [] → ended a ≡ [] → end_told a ≡ [] → IsAside a

pub same :
    (f : Act → List Bytes) (log : List Act) (a : Act)
    → f a ≡ []
    → gather f (log ++ a ∷ []) ≡ gather f log
same f log a h = gather-append f log a ∙ ap (λ z. gather f log ++ z) h ∙ append-nil (gather f log)

act-IsOrdered :
    (kind : Kind) (a : Act) (c : Conn) → IsAside a → IsOrdered kind c → IsOrdered kind (act a c)
unfolding act
act-IsOrdered kind a c (aside t o e n) (waiting p q r s u v) =
    waiting p (same offered c.log a o ∙ q) (r ∙ sym (same taken c.log a t))
      (same end_told c.log a n ∙ s) (u ∙ sym (same ended c.log a e))
      (λ k. same ended c.log a e ∙ v k)
act-IsOrdered kind a c (aside t o e n) (flowing p q r s v) =
    flowing p q
      (same offered c.log a o ∙ r ∙ ap (λ z. head_of kind ++ z) (sym (same taken c.log a t)))
      (same end_told c.log a n ∙ s ∙ sym (same ended c.log a e)) (λ k. same ended c.log a e ∙ v k)

-- The flags of the socket do not matter, and the pump may stop.
IsOrdered-flags :
    (kind : Kind) (closed valid : Bool) (c : Conn)
    → IsOrdered kind c
    → IsOrdered kind (record c { closed = closed; valid = valid })
IsOrdered-flags kind closed valid c (waiting p q r s u v) = waiting p q r s u v
IsOrdered-flags kind closed valid c (flowing p q r s v) = flowing p q r s v

pub IsOrdered-stop :
    (kind : Kind) (c : Conn) → IsOrdered kind c → IsOrdered kind (record c { pumping = false })
IsOrdered-stop kind c (waiting p q r s u v) = waiting p q r s u (λ k. absurd (ground arith))
IsOrdered-stop kind c (flowing p q r s v) = flowing p q r s (λ k. absurd (ground arith))

pub IsOrdered-if :
    (kind : Kind) (b : Bool) (c d : Conn)
    → IsOrdered kind c
    → IsOrdered kind d
    → IsOrdered kind (if b then c else d)
IsOrdered-if kind true c d h k = h
IsOrdered-if kind false c d h k = k

wrote-IsAside : (b : Bytes) → IsAside (wrote b)
unfolding taken offered ended end_told
wrote-IsAside b = aside refl refl refl refl

shut_write-IsAside : IsAside shut_write
unfolding taken offered ended end_told
shut_write-IsAside = aside refl refl refl refl

sock_closed-IsAside : IsAside sock_closed
unfolding taken offered ended end_told
sock_closed-IsAside = aside refl refl refl refl

session_closed-IsAside : IsAside session_closed
unfolding taken offered ended end_told
session_closed-IsAside = aside refl refl refl refl

pub close_sock-IsOrdered :
    (kind : Kind) (c : Conn) → IsOrdered kind c → IsOrdered kind (close_sock c)
unfolding close_sock
close_sock-IsOrdered kind c h =
    act-IsOrdered kind sock_closed _ sock_closed-IsAside (IsOrdered-flags kind c.closed false c h)

pub on_error-IsOrdered :
    (kind : Kind) (m : Bytes) (c : Conn) → IsOrdered kind c → IsOrdered kind (on_error m c)
unfolding on_error
on_error-IsOrdered kind m c h = IsOrdered-if kind (not c.valid) _ _ h (
    IsOrdered-if kind (not c.opened) _ _
      (act-IsOrdered kind shut_write _ shut_write-IsAside
        (act-IsOrdered kind _ c (wrote-IsAside _) h))
      (close_sock-IsOrdered kind c h))

pub on_data-IsOrdered :
    (kind : Kind) (b : Bytes) (c : Conn) → IsOrdered kind c → IsOrdered kind (on_data b c)
unfolding on_data
on_data-IsOrdered kind b c h =
    IsOrdered-if kind (not c.valid) _ _ h (act-IsOrdered kind _ c (wrote-IsAside b) h)

pub on_close-IsOrdered : (kind : Kind) (c : Conn) → IsOrdered kind c → IsOrdered kind (on_close c)
unfolding on_close
on_close-IsOrdered kind c h =
    let now = IsOrdered-flags kind true c.valid c h in
    IsOrdered-if kind c.closed _ _ h (
      IsOrdered-if kind c.valid _ _
        (close_sock-IsOrdered kind _ (act-IsOrdered kind shut_write _ shut_write-IsAside now)) now)

pub finish-IsOrdered : (kind : Kind) (c : Conn) → IsOrdered kind c → IsOrdered kind (finish c)
unfolding finish act
finish-IsOrdered kind c h =
    let told =
      act-IsOrdered kind session_closed _ session_closed-IsAside
        (IsOrdered-flags kind true c.valid c h) in
    IsOrdered-if kind c.closed _ _ h
      (IsOrdered-if kind c.valid _ _ (close_sock-IsOrdered kind _ told) told)

pub read_nothing-IsOrdered :
    (kind : Kind) (c : Conn) → IsOrdered kind c → IsOrdered kind (read_nothing c)
unfolding read_nothing
read_nothing-IsOrdered kind c h = IsOrdered-if kind c.closed _ _ (IsOrdered-stop kind c h) h
