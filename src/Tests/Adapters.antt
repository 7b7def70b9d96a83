-- ===== src/Tests/Adapters.antt =====
-- An adapter with a link-local address before a usable one.
use multi_send.Base.{none, some, true, false, [], ◌∷◌}
use multi_send.Base.Text.{txt}
use multi_send.Config.{Config, default_config}
use multi_send.Interfaces.{Interface, inspect}
use multi_send.Interfaces.Usable.{IsJudged, inspect-IsJudged}

abbrev config : Config
config =
    default_config
      (record { node_id = txt "n"; host = txt "h"; receive_path = txt "r"; secret = txt "s" })

abbrev adapter : Interface
adapter = record {
  name = txt "Ethernet 2";
  is_up = true;
  is_loopback = false;
  addrs = some (
      none
      ∷ some (record { a = 169; b = 254; c = 1; d = 1 })
      ∷ some (record { a = 10; b = 0; c = 0; d = 2 })
      ∷ []);
}

inspect-IsJudged_example : IsJudged config adapter (inspect config adapter)
inspect-IsJudged_example = inspect-IsJudged config adapter
