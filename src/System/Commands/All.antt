-- ===== src/System/Commands/All.antt =====
-- Commands of gateway/cli.py, one after the other.
use ble_usage_meter.Common.{
  ℕ, suc, ◌+◌, ◌≡◌, sym, ap, ◌∙◌, Str, Bytes, List, [], ◌∷◌, length, Result, ok, err, arith,
  str_is_eq,
}
use ble_usage_meter.Common.Int.{ℤ, pos, ◌+ℤ◌, +ℤ_zero, +ℤ_pos_assoc}
use ble_usage_meter.Common.Ed25519.{Ed25519}
use ble_usage_meter.Gateway.Config.Settings.{GatewayConfig}
use ble_usage_meter.Gateway.Signer.{PrivateKey}
use ble_usage_meter.Gateway.Store.{Store}
use ble_usage_meter.Gateway.Store.AppendOnly.{stored_count}
use ble_usage_meter.Gateway.Command.Main.{
  Command, Invocation, run_command, main_with, main, main_all,
}
use ble_usage_meter.System.Metered.{uses_among}
use ble_usage_meter.System.Commands.{
  AgreesWithLog, HasRoom, writes_of, writes_seen, uses_seen, total_writes, total_uses,
}
use ble_usage_meter.System.Commands.Room.{
  Counted, uses_among-length, nothing-Counted, first_room, left_room,
}
use ble_usage_meter.System.Commands.Run.{command-Counted}

module _ (scheme : Ed25519) (load_pem : Bytes → Result PrivateKey) where
  pub main-Counted :
      (loaded : Result GatewayConfig) (clock : ℕ → ℤ) (command : Command) (n k : ℕ) (s : Store)
      → AgreesWithLog s
      → HasRoom (length (writes_seen loaded command) + n) (suc k) s
      → let t = (main_with scheme load_pem loaded clock command s).1 in
        Counted s t (λ d. uses_seen d loaded command) × HasRoom n k t
  unfolding main_with writes_seen uses_seen
  main-Counted (err e) clock command n k s a room = (
    nothing-Counted s a,
    left_room 0 n k s s (λ d. 0) room (nothing-Counted s a) (λ d. omega arith),
  )
  main-Counted (ok cfg) clock command n k s a room =
      let ws = writes_of command in
      let uses = λ (d : Str). uses_among cfg.rules d ws in
      let done =
        command-Counted clock cfg (length ws) (suc k) s a scheme load_pem command
          (first_room (length ws) n (suc k) s room) in
      (
        done,
        left_room (length ws) n k s (run_command scheme load_pem cfg clock command s).1 uses room
            done (λ d. uses_among-length cfg.rules d ws),
      )

  -- Whatever commands are run, one after the other, whatever their configurations are, and whatever they
  -- meet: the stored count of a device goes up by exactly the number of its uses among the writes that
  -- the runs of `observe` and `proxy` hand on, each under its own rules, and the counts agree with
  -- the log in the end. They do so before, and counts and sequence have 64 bits throughout.
  pub main_all_refines :
      (invocations : List Invocation) (s : Store)
      → AgreesWithLog s
      → HasRoom (total_writes invocations) (length invocations) s
      → let t = main_all scheme load_pem invocations s in
        AgreesWithLog t
        × ((d : Str) → stored_count t d ≡ stored_count s d +ℤ pos (total_uses d invocations))
  unfolding main_all main total_writes total_uses
  main_all_refines [] s a room = (a, λ d. sym (+ℤ_zero (stored_count s d)))
  main_all_refines (i ∷ rest) s a room =
      let (one, room') =
        main-Counted i.loaded i.clock i.command (total_writes rest) (length rest) s a room in
      let (agrees, more) = main_all_refines rest (main scheme load_pem i s).1 one.agrees room' in
      (
        agrees,
        λ d.
            more d
            ∙ ap (λ z. z +ℤ pos (total_uses d rest)) (one.counts d)
            ∙ +ℤ_pos_assoc (stored_count s d) (uses_seen d i.loaded i.command) (total_uses d rest),
      )
