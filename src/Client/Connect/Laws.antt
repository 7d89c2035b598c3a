-- ===== src/Client/Connect/Laws.antt =====
-- Which server a client connects to, and what ends `Connect`.
use go_steam.Base.{
  ◌≤◌, Option, none, some, [], ◌∷◌, ◌++◌, List, ◌≡◌, ◌⊎◌, inl, inr, refl, sym, ap, ◌∙◌, arith,
}
use mathlib.Core.List.{
  Mem, Perm, Pairwise, forall_mem-cons, mem-append_right, mem-cons_self, not-mem-nil,
}
use mathlib.Core.List.Perm
use native.Mathlib.Bridge.{le_prop}
use go_steam.Base.Results.{ok}
use go_steam.Api.Params.{CmServer}
use go_steam.Protocol.State.{Protocol, new_protocol}
use go_steam.Protocol.OverTcp.{Socket}
use go_steam.Client.{Client, ServerError}
use go_steam.Client.Servers.{Dialing, dial_servers}
use go_steam.Client.Servers.Laws.{Reached, dial_servers_last}
use go_steam.Client.Connect.{Setting, opened, open_protocol, reach_server}

-- Sorted by load, as `slices.SortFunc` leaves a list.
abbrev pub IsByLoad : List CmServer → Type 0
IsByLoad = Pairwise (λ a b. a.load ≤ b.load)

IsByLoad-last :
    (servers : List CmServer) (server : CmServer)
    → IsByLoad (servers ++ server ∷ [])
    → (x : CmServer) → Mem x (servers ++ server ∷ [])
    → x.load ≤ server.load
IsByLoad-last [] server h x m =
    (forall_mem-cons (λ (y : CmServer). le_prop {n = y.load} {m = server.load})).1
      (omega arith, λ y n. absurd (not-mem-nil n)) x m
IsByLoad-last (s ∷ servers) server (Pairwise.cons h rest) x m =
    (forall_mem-cons (λ (y : CmServer). le_prop {n = y.load} {m = server.load})).1
      (h server (mem-append_right servers mem-cons_self), IsByLoad-last servers server rest) x m

-- A list is empty, or it has a last element.
last-cases :
    {A : Type 0} (xs : List A) → (xs ≡ []) ⊎ ((ys : List A) × (y : A) × (xs ≡ ys ++ y ∷ []))
last-cases [] = inl refl
last-cases (x ∷ xs) = elim (last-cases xs) [
  | inl e ↦ inr ([], x, ap (λ t. x ∷ t) e)
  | inr (ys, y, e) ↦ inr (x ∷ ys, y, ap (λ t. x ∷ t) e)
]

cons_ne : (x : CmServer) (xs : List CmServer) → Path (List CmServer) [] (x ∷ xs) → ⊥
cons_ne x xs h = cc

module _ {W : Type 0} (s : Setting W) where
  open s use {dial, sort_by_load}

  opened_inv :
      (e : Option ServerError) (conn : Option Socket) (w : W) (c c' : Client) (w' : W)
      (h : Protocol Socket)
      → opened s e conn c w ≡ (ok h, (c', w'))
      → (socket : Socket) × (e ≡ none)
        × (conn ≡ some socket)
        × (h ≡ new_protocol socket)
        × (c'.protocol ≡ some h)
  unfolding opened
  opened_inv none (some socket) w c c' w' h e =
      let new : new_protocol socket ≡ h = cc in
      let same : Path Client (record c { protocol = some (new_protocol socket) }) c' = cc in
      (socket, refl, refl, sym new, sym (ap (λ (x : Client). x.protocol) same) ∙ ap some new)
  opened_inv none none w c c' w' h e = cc
  opened_inv (some x) conn w c c' w' h e = cc

  abbrev start : Dialing
  start = record { conn = none; err_ = none }

  -- When `connect` reaches a server among `servers`, which the package slices sorts by load, then that
  -- is one whose load no server exceeds. The protocol is new on the connection to it.
  pub reach_server_load :
      (servers : List CmServer) (c c' : Client) (w w' : W) (h : Protocol Socket)
      → Perm (sort_by_load servers) servers
      → IsByLoad (sort_by_load servers)
      → reach_server s servers (c, w) ≡ (ok h, (c', w'))
      → (server : CmServer) × (socket : Socket) × (v : W) × Mem server servers
        × ((x : CmServer) → Mem x servers → x.load ≤ server.load)
        × Reached dial server v socket
        × (h ≡ new_protocol socket)
        × (c'.protocol ≡ some h)
  unfolding reach_server open_protocol
  reach_server_load [] c c' w w' h perm sorted e = cc
  reach_server_load (a ∷ rest) c c' w w' h perm sorted e =
      elim (last-cases (sort_by_load (a ∷ rest))) [
        | inl none_left ↦ absurd (cons_ne a rest (Perm.nil-eq (rw (none_left) at perm)))
        | inr (before, server, order) ↦
            let dialled = dial_servers dial (sort_by_load (a ∷ rest)) (start, w) in
            let (socket, no_error, connected, new, kept) =
              opened_inv dialled.0.err_ dialled.0.conn dialled.1 c c' w' h e in
            let (typed, endpoint, reached, tcp, written) =
              (dial_servers_last dial before server start w socket).0
                (rw (order) at no_error, rw (order) at connected) in
            (
              server,
              socket,
              (dial_servers dial before (start, w)).1,
              (Perm.mem_iff perm).0 (rw (order) (mem-append_right before mem-cons_self)),
              λ x m.
                  IsByLoad-last before server (rw (order) at sorted) x
                    (rw (sym order) ((Perm.mem_iff perm).1 m)),
              (typed, endpoint, reached, tcp, written),
              new,
              kept,
            )
      ]
