-- ===== src/Engine.antt =====
-- core/engine.hpp and core/engine_select.cpp: the status of a finished session, and the choice of an
-- engine. The probe of an engine belongs to the host: `probe` is a parameter.
pub mod Choice
use vhdp.Base.{
  ℕ, ◌+◌, ◌%◌, Bool, true, false, ◌||◌, not, List, [], ◌∷◌, ◌++◌, Option, some, none, Bytes, codes,
  if◌then◌else◌, ◌==◌,
}
use vhdp.Base.Int.{ℤ, pos, negsuc, to_u32}
use vhdp.Config.{EngineKind, auto_select, rootless, rooted, emulator, vm, engine_name}
use vhdp.Status.{fail_with, engine_unavailable, Result, value, failure}

pub data ExitReason : Type 0 where
  no_reason normal signaled timeout cancelled start_failed : ExitReason

-- The detail `status` of a failed start is left out.
pub record ExitResult : Type 0 where
  pub reason : ExitReason
  pub exit_code : ℤ
  pub term_signal : ℕ
  pub exec_errno : ℕ

-- ENOENT is 2, EACCES is 13, ENOEXEC is 8 and EPERM is 1; `x & 0xff` of a signed number is its
-- lowest byte.
unfoldable pub shell_status : ExitResult → ℕ
shell_status r = elim r.reason [
  | normal ↦ to_u32 r.exit_code % 256
  | signaled ↦ 128 + r.term_signal
  | timeout ↦ 124
  | start_failed ↦
      if r.exec_errno == 2
      then 127
      else if r.exec_errno == 13 || r.exec_errno == 8 || r.exec_errno == 1
      then 126
      else 125
  | cancelled ↦ 125
  | no_reason ↦ 125
]

pub record ProbeReport : Type 0 where
  pub available : Bool
  pub reason : Bytes

pub record EngineChoice : Type 0 where
  pub engine : EngineKind
  pub reason : Bytes

unfoldable pub same_kind : EngineKind → EngineKind → Bool
same_kind auto_select auto_select = true
same_kind rootless rootless = true
same_kind rooted rooted = true
same_kind emulator emulator = true
same_kind vm vm = true
same_kind _ _ = false

-- The lambda `find`. An engine is its kind, and a null pointer is left out of the list.
unfoldable pub find : EngineKind → List EngineKind → Option EngineKind
unfolding same_kind
find k [] = none
find k (e ∷ engines) = let rest = find k engines in if same_kind e k then some e else rest

module _ (probe : EngineKind → ProbeReport) where
  -- The reasons of the engines that auto does not pick.
  unfoldable pub add_reasons : List EngineKind → List EngineKind → Bytes → Bytes
  unfolding find engine_name
  add_reasons engines [] why = why
  add_reasons engines (k ∷ kinds) why = add_reasons engines kinds (elim (find k engines) [
    | none ↦ why
    | some e ↦ why ++ (codes "; " ++ (engine_name k ++ (codes ": " ++ (probe e).reason)))
  ])

  abbrev no_engine : List EngineKind → Bytes → Result EngineChoice
  no_engine engines why = failure (
      fail_with engine_unavailable (
        codes "no usable engine ("
        ++ (add_reasons engines (rooted ∷ emulator ∷ vm ∷ []) why ++ codes ")")))

  unfoldable pub select_auto : List EngineKind → Result EngineChoice
  unfolding find add_reasons
  select_auto engines = elim (find rootless engines) [
    | some e ↦
        if (probe e).available
        then value
            (record { engine = e; reason = codes "auto selected rootless: " ++ (probe e).reason })
        else no_engine engines (codes "rootless: " ++ (probe e).reason)
    | none ↦ no_engine engines (codes "rootless: not built")
  ]

  unfoldable pub select_named : EngineKind → List EngineKind → Result EngineChoice
  unfolding find engine_name
  select_named k engines = elim (find k engines) [
    | none ↦ failure (
        fail_with engine_unavailable
          (codes "engine '" ++ (engine_name k ++ codes "' is not built")))
    | some e ↦
        if (probe e).available
        then value (record {
          engine = e;
          reason =
              codes "explicitly requested " ++ (engine_name k ++ (codes ": " ++ (probe e).reason));
        })
        else failure (
            fail_with engine_unavailable (
              codes "engine '" ++ (engine_name k ++ (codes "' unavailable: " ++ (probe e).reason))))
  ]

  unfoldable pub select_engine : EngineKind → List EngineKind → Result EngineChoice
  unfolding select_auto select_named
  select_engine auto_select engines = select_auto engines
  select_engine k engines = select_named k engines
