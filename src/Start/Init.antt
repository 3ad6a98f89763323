-- ===== src/Start/Init.antt =====
-- `call_init_functs` of kernel/init.c. The table that the linker lays out is a list, and what the
-- functions of the drivers do to the kernel's state is a parameter.
use eaburns_sos.Prelude.{ℕ, List, [], ◌∷◌}

-- what the functions give: the codes of kernel/include/retval.h, by what the loop makes of them
pub data InitCode : Type 0 where
  init_success probe_failure other : InitCode

-- `initdata_t`
pub record InitData (State : Type 0) : Type 0 where
  pub name : List ℕ
  pub init : State → InitCode × State

-- The loop, from one entry of the table to its end: the names that are printed with what became of
-- each, and the state.
unfoldable pub call_init_functs :
    {State : Type 0} → List (InitData State) → State → List (List ℕ × InitCode) × State
call_init_functs [] s = ([], s)
call_init_functs (p ∷ ps) s =
    let (ret, s1) = p.init s in
    let (printed, s2) = call_init_functs ps s1 in ((p.name, ret) ∷ printed, s2)
