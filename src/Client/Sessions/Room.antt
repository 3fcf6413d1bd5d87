-- ===== src/Client/Sessions/Room.antt =====
-- `allocId` and `openSession` when there is room in the client's session map.
use github_codespaces_proxy.Base.{
  ℕ, zero, suc, ◌+◌, ◌-◌, ◌*◌, ◌^◌, ◌≤◌, ◌<◌, ◌≡◌, ◌≢◌, refl, sym, true, false, some, List, [], ◌∷◌,
  arith, leb, ◌==◌, if◌then◌else◌, Bytes, length, Bool-cases, Option-cases, inl, inr,
}
use github_codespaces_proxy.Base.Store.{find_id, erase_id}
use github_codespaces_proxy.Client.State.{
  Net, TunnelOptions, Tunnel, following, alloc_loop, alloc_id,
}
use github_codespaces_proxy.Client.Sessions.{open_session, register}
use github_codespaces_proxy.Client.Sessions.Ids.{IsId, following-IsId}

find_id-erase_id : (j x : ℕ) (l : List (ℕ × ℕ)) → j ≢ x → find_id j (erase_id x l) ≡ find_id j l
unfolding find_id erase_id
find_id-erase_id j x [] h = refl
find_id-erase_id j x ((i, p) ∷ l) h = let k = find_id-erase_id j x l h in ground arith

length-erase_id :
    (x : ℕ) (l : List (ℕ × ℕ)) {p : ℕ}
    → find_id x l ≡ some p
    → suc (length (erase_id x l)) ≡ length l
unfolding find_id erase_id
length-erase_id x [] h = cc
length-erase_id x ((i, q) ∷ l) h = elim (Bool-cases (i == x)) [
  | inl e ↦ rw e (omega arith)
  | inr e ↦ let k = length-erase_id x l (rw e at h) in rw e (omega arith)
]

-- How many ids come before `x` when the ids are taken in turn from `j` on.
distance : ℕ → ℕ → ℕ
distance j x = if leb j x then x - j else x + 0xfffffffe - j

distance-following :
    (k j x : ℕ) → IsId j → IsId x → suc k ≤ distance j x → (j ≢ x) × (k ≤ distance (following j) x)
unfolding distance following IsId
distance-following k j x hj hx l = (λ e. ground arith, ground arith)

distance-round : (id : ℕ) → IsId id → distance (following id) id ≡ 0xfffffffd
unfolding distance following IsId
distance-round id h = ground arith

-- An entry that the tries do not reach makes no difference.
alloc_loop-erase_id :
    (k j x : ℕ) (l : List (ℕ × ℕ))
    → IsId j
    → IsId x
    → k ≤ distance j x
    → alloc_loop k j (erase_id x l) ≡ alloc_loop k j l
unfolding alloc_loop
alloc_loop-erase_id zero j x l hj hx d = refl
alloc_loop-erase_id (suc k) j x l hj hx d =
    let (n, d') = distance-following k j x hj hx d in
    let same = find_id-erase_id j x l n in
    let later = alloc_loop-erase_id k (following j) x l (following-IsId j hj) hx d' in
    elim (Option-cases (find_id j l)) [
      | inl e ↦ rw (alloc_loop, same, e) refl
      | inr (p, e) ↦ rw (alloc_loop, same, e) later
    ]

alloc_loop_room :
    (tries id : ℕ) (l : List (ℕ × ℕ))
    → IsId id
    → tries ≤ 0xfffffffe
    → length l < tries
    → 0 < (alloc_loop tries id l).0
unfolding alloc_loop IsId
alloc_loop_room zero id l h m r = absurd (omega arith)
alloc_loop_room (suc tries) id l h m r = elim (Option-cases (find_id id l)) [
  | inl e ↦ rw (alloc_loop, e) (omega arith)
  | inr (p, e) ↦
      let n = length-erase_id id l e in
      let d = distance-round id h in
      let same =
        alloc_loop-erase_id tries (following id) id l (following-IsId id h) h (omega arith) in
      rw (alloc_loop, e, sym same)
        (alloc_loop_room tries (following id) (erase_id id l) (following-IsId id h) (omega arith)
          (omega arith))
]

-- With fewer sessions in the map than allowed, at most 2 ^ 30 - 1 of them allowed, a next id
-- between 1 and 0xfffffffe, a tunnel that is ready, an open WebSocket and a write that works,
-- openSession gives the new session.
pub open_session_room :
    (net : Net) (opts : TunnelOptions) (host : Bytes) (port : ℕ) (t : Tunnel)
    → t.ready ≡ true
    → IsId t.next_id
    → length t.sessions < opts.max_sessions
    → opts.max_sessions < 2 ^ 30
    → net.ws_open t.log ≡ true
    → ((text : Bytes) → net.text_ok t.log text ≡ true)
    → (open_session net opts host port t).1 ≡ some (length t.heap)
unfolding open_session alloc_id register
open_session_room net opts host port t u h l m w k =
    let a =
      alloc_loop_room (opts.max_sessions * 2) t.next_id t.sessions h (omega arith) (omega arith) in
    let full : leb opts.max_sessions (length t.sessions) ≡ false = ground arith in
    let given : ((alloc_loop (opts.max_sessions * 2) t.next_id t.sessions).0 == 0) ≡ false =
      ground arith in
    rw (u, full, given, w, k _) refl
