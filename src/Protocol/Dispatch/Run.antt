-- ===== src/Protocol/Dispatch/Run.antt =====
-- One round of `Run` (protocol/protocol.go): what it does with each result of a read.
use go_steam.Base.{ℕ, suc, ◌≡◌, refl, some, Bytes}
use go_steam.Base.Results.{ok, err}
use go_steam.Protocol.State.{Protocol, read_failed_, and_then}
use go_steam.Protocol.Handlers.{Outside}
use go_steam.Protocol.Dispatch.{read_message, read_packet, run}

module _ {C : Type 0} (out : Outside C) where
  pub run_packet :
      (depth rounds : ℕ) (bs : Bytes) (c : C) (h h' : Protocol C)
      → out.link.read h.connection ≡ (ok (some bs), c)
      → read_message out depth bs (record h { connection = c }) ≡ (ok tt, h')
      → run out depth (suc rounds) h ≡ run out depth rounds h'
  unfolding run read_packet and_then
  run_packet depth rounds bs c h h' arrived handled = rw (arrived, handled) refl

  pub run_failed :
      (depth rounds : ℕ) (c : C) (h : Protocol C)
      → out.link.read h.connection ≡ (err tt, c)
      → run out depth (suc rounds) h ≡ (err read_failed_, record h { connection = c })
  unfolding run read_packet and_then
  run_failed depth rounds c h fails = rw fails refl
