-- ===== src/Main.antt =====
-- cmd/webhook/main.go and pkg/logger/logger.go: what has to be there before the servers run, and how the
-- process ends.
use external_dns_openwrt_nex.Prelude.{Bool, ◌||◌, Option, none, some, if◌then◌else◌}
use external_dns_openwrt_nex.Strings.{Str, codes, CaseTable, to_lower, ◌==◌}
use external_dns_openwrt_nex.Exec.{Result, ok, err, relabel}

pub data LogHandler : Type 0 where
  json_handler text_handler : LogHandler

pub data LoggerError : Type 0 where
  invalid_level : Str → LoggerError
  invalid_encoding : Str → LoggerError

abbrev choose_handler : {L : Type 0} → Str → Str → L → Result LoggerError (L × LogHandler)
choose_handler encoding lowered level =
    if lowered == codes "json"
    then ok (level, json_handler)
    else if lowered == codes "console" || lowered == codes "text"
    then ok (level, text_handler)
    else err (invalid_encoding encoding)

-- `logger.New`, of a level and an encoding. `parse_level` is `UnmarshalText` of slog's levels.
unfoldable pub new_logger :
    ⦃u : CaseTable⦄
    → {L : Type 0} → (Str → Option L)
    → Str
    → Str
    → Result LoggerError (L × LogHandler)
new_logger parse_level level encoding = elim (parse_level level) [
  | none ↦ err (invalid_level level)
  | some l ↦ choose_handler encoding (to_lower encoding) l
]

-- Why the process stops with an error.
pub data Fatal (X : Type 0) : Type 0 where
  read_config setup_logger setup_status setup_provider http_server shutdown_server : X → Fatal X

-- What `run` makes before the servers: the configuration, the logger, the client of the mirror where
-- that is switched on, and the provider.
pub record Parts (X C L K P : Type 0) : Type 0 where
  pub config : Result X C
  pub logger : C → Result X L
  pub status_enabled : C → Bool
  pub client : C → Result X K
  pub provider : C → Option K → Result X P

abbrev then_do : {E A B : Type 0} → Result E A → (A → Result E B) → Result E B
then_do (ok a) next = next a
then_do (err e) next = err e

module _ {X C L K P : Type 0} (parts : Parts X C L K P) where
  abbrev mirror : C → Result (Fatal X) (Option K)
  mirror c =
      if parts.status_enabled c
      then relabel setup_status (then_do (parts.client c) (λ k. ok (some k)))
      else ok none

  -- `run`, up to the provider.
  unfoldable pub start : Result (Fatal X) (C × (L × (Option K × P)))
  start = then_do (relabel read_config parts.config) (λ c.
      then_do (relabel setup_logger (parts.logger c)) (λ log.
        then_do (mirror c) (λ k.
          then_do (relabel setup_provider (parts.provider c k)) (λ p. ok (c, (log, (k, p)))))))

-- What the select of `run` gets: the servers have stopped, or a signal came, and the shutdown ended
-- in time, ran out of time, or failed.
pub data Ending (X : Type 0) : Type 0 where
  servers_stopped : Option X → Ending X
  shut_down deadline_exceeded : Ending X
  shutdown_failed : X → Ending X

-- The result of `run`, behind the select.
unfoldable pub run_result : {X : Type 0} → Ending X → Result (Fatal X) (Unit {0})
run_result (servers_stopped none) = ok tt
run_result (servers_stopped (some x)) = err (http_server x)
run_result shut_down = ok tt
run_result deadline_exceeded = ok tt
run_result (shutdown_failed x) = err (shutdown_server x)
