-- ===== src/Media/Manager/Examples.antt =====
-- The theorems on a media node at a node with one session that is stopped while it is drained.
use monogo.Base.{◌≡◌, refl, true, some, [], codes}
use monogo.Media.Config.{Config}
use monogo.Media.Manager.{
  Node, Reach, here, next_step, started, start_called, stop_called, drain_called, new_node,
  new_manager, start_locked, lookup, add_session,
}
use monogo.Media.Manager.Invariant.{Coherent}
use monogo.Media.Manager.Settle.{AtRest, Reach-Coherent, Reach-AtRest}

abbrev config : Config
config = record {
  id = 4;
  organization_id = 1;
  call_id = 7;
  channel_id = 9;
  engine = codes "engine";
  input_format = record { sample_rate_hz = 8000; channels = 1 };
  output_format = record { sample_rate_hz = 8000; channels = 1 };
  language = [];
  instructions = [];
  voice = [];
  engine_config = [];
  tools = [];
  providers = [];
}

abbrev fresh : Node
fresh = new_node 2 (λ engine. true)

abbrev with_session : Node
with_session = record fresh { manager = (start_locked config (started true) fresh.manager).1 }

listed : lookup 4 with_session.manager.sessions ≡ some 0
unfolding new_node new_manager start_locked lookup add_session
listed = refl

abbrev used : (n : Node) × Reach fresh n
used = (
  _,
  next_step
      (next_step (next_step here (start_called config (started true))) (stop_called 4 0 listed))
      drain_called,
)

Reach-Coherent_example : Coherent used.0.manager
Reach-Coherent_example = Reach-Coherent 2 (λ engine. true) used.0 used.1

Reach-AtRest_example : AtRest used.0
Reach-AtRest_example = Reach-AtRest 2 (λ engine. true) used.0 used.1
