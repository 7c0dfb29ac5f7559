-- ===== src/Tools/Dispatch.antt =====
-- tools.rs: the identity gate, and the choice of the tool.
use tuskd.Prelude.{Option, none, some, ◌==◌, if◌then◌else◌}
use tuskd.Text.{Text, codes, Text_eq}
use tuskd.Errors.{denied, other, unknown_agent, revoked_agent, unknown_tool}
use tuskd.Exec.{Exec, raise}
use tuskd.Floats.{Floats}
use tuskd.Keyring.{AgentEntry, find_agent}
use tuskd.Journal.{Services}
use tuskd.Index.Search.{Engine}
use tuskd.Gate.Commit.{Config}
use package.tuskd.Tools.Args.{Value}
use package.tuskd.Tools.Handlers.{
  TuskContext, UnitInterval, Reply, memory_write, memory_get, memory_promote, memory_reflect,
  memory_feedback, memory_forget,
}
use package.tuskd.Tools.Search.{memory_search, skill_list, memory_status}

module _ {fl : Floats} (sv : Services) (cf : Config fl sv) (ui : UnitInterval fl)
    (engine : Engine fl sv.chrono) (agent_id : Text) where
  unfoldable pub tool : Text → Value fl → Exec (TuskContext fl sv) (Reply fl sv)
  unfolding memory_write memory_search memory_get memory_promote memory_reflect memory_feedback
      memory_forget skill_list memory_status
  tool name args =
      if name == codes "memory_write"
      then memory_write sv cf ui agent_id args
      else if name == codes "memory_search"
      then memory_search sv engine agent_id args
      else if name == codes "memory_get"
      then memory_get sv cf ui agent_id args
      else if name == codes "memory_promote"
      then memory_promote sv cf ui agent_id args
      else if name == codes "memory_reflect"
      then memory_reflect sv cf ui agent_id args
      else if name == codes "memory_feedback"
      then memory_feedback sv cf ui agent_id args
      else if name == codes "memory_forget"
      then memory_forget sv cf ui agent_id args
      else if name == codes "skill_list"
      then skill_list sv engine agent_id
      else if name == codes "memory_status"
      then memory_status sv engine agent_id
      else raise (other (unknown_tool name))

  abbrev pub admitted :
      Option AgentEntry
      → Exec (TuskContext fl sv) (Reply fl sv)
      → Exec (TuskContext fl sv) (Reply fl sv)
  admitted none call = raise (denied (unknown_agent agent_id))
  admitted (some a) call = if a.revoked then raise (denied (revoked_agent agent_id)) else call

  unfoldable pub dispatch : Text → Value fl → Exec (TuskContext fl sv) (Reply fl sv)
  unfolding find_agent tool
  dispatch name args x = admitted (find_agent agent_id x.keyring.agents) (tool name args) x
