-- ===== src/Engine/Choice.antt =====
-- Which engine `select_engine` returns.
use vhdp.Base.{true, List, [], ◌∷◌, some, ◌≡◌, refl, arith}
use vhdp.Config.{EngineKind, auto_select, rootless, rooted, emulator, vm}
use vhdp.Status.{value}
use vhdp.Engine.{
  ProbeReport, EngineChoice, same_kind, find, select_engine, select_auto, select_named,
}

-- The engine that a request is about.
abbrev pub wanted : EngineKind → EngineKind
wanted auto_select = rootless
wanted k = k

same_kind_equal : (a b : EngineKind) → same_kind a b ≡ true → a ≡ b
unfolding same_kind
same_kind_equal auto_select auto_select h = refl
same_kind_equal rootless rootless h = refl
same_kind_equal rooted rooted h = refl
same_kind_equal emulator emulator h = refl
same_kind_equal vm vm h = refl
same_kind_equal _ _ h = cc

find-kind :
    (k : EngineKind) (engines : List EngineKind) {e : EngineKind} → find k engines ≡ some e → e ≡ k
unfolding find
find-kind k [] h = cc
find-kind k (a ∷ engines) {e = e} h =
    ground (arith, find-kind k engines {e = e}, same_kind_equal a k)

select_auto-value :
    (probe : EngineKind → ProbeReport) (engines : List EngineKind) {c : EngineChoice}
    → select_auto probe engines ≡ value c
    → (find rootless engines ≡ some c.engine) × ((probe c.engine).available ≡ true)
unfolding select_auto
select_auto-value probe engines h = ground arith

select_named-value :
    (probe : EngineKind → ProbeReport) (k : EngineKind) (engines : List EngineKind)
    {c : EngineChoice}
    → select_named probe k engines ≡ value c
    → (find k engines ≡ some c.engine) × ((probe c.engine).available ≡ true)
unfolding select_named
select_named-value probe k engines h = ground arith

chosen :
    (probe : EngineKind → ProbeReport) (k : EngineKind) (engines : List EngineKind)
    {c : EngineChoice}
    → select_engine probe k engines ≡ value c
    → (find (wanted k) engines ≡ some c.engine) × ((probe c.engine).available ≡ true)
unfolding select_engine
chosen probe auto_select engines h = select_auto-value probe engines h
chosen probe rootless engines h = select_named-value probe rootless engines h
chosen probe rooted engines h = select_named-value probe rooted engines h
chosen probe emulator engines h = select_named-value probe emulator engines h
chosen probe vm engines h = select_named-value probe vm engines h

-- The engine that is returned is of the requested kind, rootless for auto, is among the engines
-- given, and its probe reports it as available: there is no fallback to another kind.
pub select_engine-kind :
    (probe : EngineKind → ProbeReport) (k : EngineKind) (engines : List EngineKind)
    {c : EngineChoice}
    → select_engine probe k engines ≡ value c
    → (c.engine ≡ wanted k)
      × (find (wanted k) engines ≡ some c.engine)
      × ((probe c.engine).available ≡ true)
select_engine-kind probe k engines h =
    let p = chosen probe k engines h in (find-kind (wanted k) engines p.0, p.0, p.1)
