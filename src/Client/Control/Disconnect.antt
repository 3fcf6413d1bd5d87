-- ===== src/Client/Control/Disconnect.antt =====
-- The end of a connection on the client: every session hears of it, once.
use github_codespaces_proxy.Base.{
  ℕ, ◌≡◌, refl, sym, ap, ◌∙◌, Bool, true, false, List, [], ◌∷◌, ◌++◌, if◌then◌else◌, Bytes,
  append_assoc, append-nil,
}
use github_codespaces_proxy.Base.Store.{update}
use github_codespaces_proxy.Client.State.{Event, on_close, on_error, on_down, Tunnel, note}
use github_codespaces_proxy.Client.Sessions.{shut}
use github_codespaces_proxy.Client.Control.{disconnect_each, on_disconnected}

-- The callbacks of the sessions of a map, in its order.
unfoldable pub notices : Bytes → List (ℕ × ℕ) → List Event
notices reason [] = []
notices reason ((id, p) ∷ all_) = on_error p reason ∷ on_close p reason ∷ notices reason all_

-- The walk changes the heap and the log only.
data IsWalked (reason : Bytes) (all_ : List (ℕ × ℕ)) (t u : Tunnel) : Type 0 where
  walked :
      u.sessions ≡ t.sessions
      → u.ready ≡ t.ready
      → u.disconnected ≡ t.disconnected
      → u.log ≡ t.log ++ notices reason all_
      → IsWalked reason all_ t u

disconnect_each-IsWalked :
    (reason : Bytes) (all_ : List (ℕ × ℕ)) (t : Tunnel)
    → IsWalked reason all_ t (disconnect_each reason all_ t)
unfolding disconnect_each note notices
disconnect_each-IsWalked reason [] t = walked refl refl refl (sym (append-nil t.log))
disconnect_each-IsWalked reason ((id, p) ∷ all_) t =
    elim (disconnect_each-IsWalked reason all_ (
      let told = note (on_close p reason) (note (on_error p reason) t) in
      record told { heap = update shut told.heap p })) [
        | walked a b c d ↦ walked a b c (
            d
            ∙ append_assoc (t.log ++ on_error p reason ∷ []) (on_close p reason ∷ [])
                (notices reason all_)
            ∙ append_assoc t.log (on_error p reason ∷ []) (on_close p reason ∷ notices reason all_))
      ]

-- The first time that a connection is lost, the tunnel is no longer ready, its map is empty, and
-- every session that was in it has had its error and its close callback, once and in this order,
-- before the tunnel's own callback.
pub on_disconnected-told :
    (reason : Bytes) (t : Tunnel)
    → t.disconnected ≡ false
    → ((on_disconnected reason t).sessions ≡ [])
      × ((on_disconnected reason t).ready ≡ false)
      × ((on_disconnected reason t).log
          ≡ t.log ++ (notices reason t.sessions ++ on_down reason ∷ []))
unfolding on_disconnected note
on_disconnected-told reason t h =
    elim (disconnect_each-IsWalked reason t.sessions
      (record t { disconnected = true; ready = false; sessions = [] })) [
        | walked a b c d ↦ (
          rw (on_disconnected, h) a,
          rw (on_disconnected, h) b,
          rw (on_disconnected, h)
              (ap (λ l. l ++ on_down reason ∷ []) d
                ∙ append_assoc t.log (notices reason t.sessions) (on_down reason ∷ [])),
        )
      ]

if_disconnected :
    (x y : Tunnel) (b : Bool)
    → (b ≡ true → x.disconnected ≡ true)
    → y.disconnected ≡ true
    → (if b then x else y).disconnected ≡ true
if_disconnected x y true h k = h refl
if_disconnected x y false h k = k

on_disconnected-disconnected :
    (reason : Bytes) (t : Tunnel) → (on_disconnected reason t).disconnected ≡ true
unfolding on_disconnected note
on_disconnected-disconnected reason t =
    elim (disconnect_each-IsWalked reason t.sessions
      (record t { disconnected = true; ready = false; sessions = [] })) [
        | walked a b c d ↦ if_disconnected _ _ t.disconnected (λ e. e) c
      ]

if_true : (x y : Tunnel) (b : Bool) → b ≡ true → (if b then x else y) ≡ x
if_true x y true h = refl
if_true x y false h = absurd cc

-- A loss that is reported again for the same connection, with whatever reason, changes nothing.
pub on_disconnected_twice :
    (reason again : Bytes) (t : Tunnel)
    → on_disconnected again (on_disconnected reason t) ≡ on_disconnected reason t
on_disconnected_twice reason again t =
    again_same (on_disconnected reason t) (on_disconnected-disconnected reason t)
  where
    again_same : (u : Tunnel) → u.disconnected ≡ true → on_disconnected again u ≡ u
    again_same u h = unfold on_disconnected in if_true _ _ u.disconnected h
