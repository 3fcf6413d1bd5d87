-- ===== src/Client/Sessions/Ids.antt =====
-- The ids that `allocId` gives out, and the size of the client's session map.
use github_codespaces_proxy.Base.{
  ℕ, zero, suc, ◌*◌, ◌≤◌, ◌<◌, ◌≡◌, refl, Bool, true, false, Option, none, some, not, List, [], ◌∷◌,
  ◌++◌, arith, leb, ◌==◌, if◌then◌else◌, Bytes, length, Bool-cases, Option-cases, inl, inr,
}
use github_codespaces_proxy.Base.Store.{find_id, put_id, erase_id}
use github_codespaces_proxy.Protocol.Message.{connect_message}
use github_codespaces_proxy.Client.State.{
  text_sent, Net, TunnelOptions, Tunnel, following, alloc_loop, alloc_id, note,
}
use github_codespaces_proxy.Client.Sessions.{open_session, register}

-- An id that may be given out.
unfoldable pub IsId : ℕ → Type 0
IsId id = (1 ≤ id) × (id ≤ 0xfffffffe)

pub following-IsId : (id : ℕ) → IsId id → IsId (following id)
unfolding following IsId
following-IsId id h = (ground arith, ground arith)

-- None, or an id that is not in use.
data IsAllocated (sessions : List (ℕ × ℕ)) : ℕ × ℕ → Type 0 where
  no_id : (next : ℕ) → IsId next → IsAllocated sessions (0, next)
  new_id :
      (id next : ℕ)
      → IsId id
      → find_id id sessions ≡ none
      → IsId next
      → IsAllocated sessions (id, next)

alloc_loop-IsAllocated :
    (tries id : ℕ) (sessions : List (ℕ × ℕ))
    → IsId id
    → IsAllocated sessions (alloc_loop tries id sessions)
unfolding alloc_loop
alloc_loop-IsAllocated zero id sessions h = no_id id h
alloc_loop-IsAllocated (suc tries) id sessions h = elim (Option-cases (find_id id sessions)) [
  | inl e ↦ rw (alloc_loop, e) (new_id id (following id) h e (following-IsId id h))
  | inr (p, e) ↦
      rw (alloc_loop, e)
        (alloc_loop-IsAllocated tries (following id) sessions (following-IsId id h))
]

-- An entry that is put in under an unused id and taken out again leaves the map as it was.
erase_id-put_id :
    (id p : ℕ) (l : List (ℕ × ℕ)) → find_id id l ≡ none → erase_id id (put_id id p l) ≡ l
unfolding erase_id put_id find_id
erase_id-put_id id p [] h = ground arith
erase_id-put_id id p ((j, q) ∷ l) h = elim (Bool-cases (j == id)) [
  | inl e ↦ ground arith
  | inr e ↦ let k = erase_id-put_id id p l (ground arith) in ground arith
]

-- What `openSession` may do: nothing to the sessions, without a result, or one new session under an
-- unused id, whose `connect` is the one message sent.
pub data IsOpened (opts : TunnelOptions) (host : Bytes) (port : ℕ) (t : Tunnel)
    : Tunnel × Option ℕ → Type 0 where
  refused :
      (u : Tunnel)
      → u.sessions ≡ t.sessions
      → u.log ≡ t.log
      → IsId u.next_id
      → IsOpened opts host port t (u, none)
  opened :
      (u : Tunnel) (id : ℕ)
      → IsId id
      → find_id id t.sessions ≡ none
      → length t.sessions < opts.max_sessions
      → u.sessions ≡ put_id id (length t.heap) t.sessions
      → u.log ≡ t.log ++ text_sent (connect_message id host port) ∷ []
      → IsId u.next_id
      → IsOpened opts host port t (u, some (length t.heap))

opened_if :
    {opts : TunnelOptions} {host : Bytes} {port : ℕ} {t : Tunnel} {x y : Tunnel × Option ℕ}
    (b : Bool)
    → (b ≡ true → IsOpened opts host port t x)
    → (b ≡ false → IsOpened opts host port t y)
    → IsOpened opts host port t (if b then x else y)
opened_if true h k = h refl
opened_if false h k = k refl

register-IsOpened :
    (net : Net) (opts : TunnelOptions) (id : ℕ) (host : Bytes) (port : ℕ) (t : Tunnel) (next : ℕ)
    → IsId id
    → find_id id t.sessions ≡ none
    → length t.sessions < opts.max_sessions
    → IsId next
    → IsOpened opts host port t (register net id host port (record t { next_id = next }))
unfolding register note
register-IsOpened net opts id host port t next h f l n =
    opened_if (not (net.ws_open t.log))
      (λ e. refused _ (erase_id-put_id id (length t.heap) t.sessions f) refl n)
      (λ e.
        opened_if (net.text_ok t.log (connect_message id host port))
          (λ g. opened _ id h f l refl refl n)
          (λ g. refused _ (erase_id-put_id id (length t.heap) t.sessions f) refl n))

alloc-IsOpened :
    (net : Net) (opts : TunnelOptions) (host : Bytes) (port : ℕ) (t : Tunnel) (r : ℕ × ℕ)
    → length t.sessions < opts.max_sessions
    → IsAllocated t.sessions r
    → IsOpened opts host port t (
        if r.0 == 0
        then (record t { next_id = r.1 }, none)
        else register net (r.0) host port (record t { next_id = r.1 }))
alloc-IsOpened net opts host port t r l (no_id next n) = refused _ refl refl n
alloc-IsOpened net opts host port t r l (new_id id next h f n) =
    opened_if (id == 0) (λ e. refused _ refl refl n)
      (λ e. register-IsOpened net opts id host port t next h f l n)

-- From a next id between 1 and 0xfffffffe, openSession either gives no session and leaves the map
-- and what was sent as they were, or adds one session, under an id in that range that was not in
-- use, with fewer than the allowed number there before, and sends that session's connect only; the
-- next id is in the range again.
pub open_session-IsOpened :
    (net : Net) (opts : TunnelOptions) (host : Bytes) (port : ℕ) (t : Tunnel)
    → IsId t.next_id
    → IsOpened opts host port t (open_session net opts host port t)
unfolding open_session alloc_id
open_session-IsOpened net opts host port t h =
    opened_if (not t.ready) (λ e. refused t refl refl h)
      (λ e.
        opened_if (leb opts.max_sessions (length t.sessions)) (λ f. refused t refl refl h)
          (λ f.
            alloc-IsOpened net opts host port t _ (ground arith)
              (alloc_loop-IsAllocated (opts.max_sessions * 2) t.next_id t.sessions h)))
