-- ===== src/Core/Examples/Apps.antt =====
-- Two application rules, one of them with a higher priority.
use uperf_linux_rev.Base.{◌≡◌, refl, true, none, some, List, [], ◌∷◌, ok}
use uperf_linux_rev.Base.Int.{pos, negsuc}
use uperf_linux_rev.Base.Text.{Text, text, same_text}
use uperf_linux_rev.Core.Domain.{ProcessInfo}
use uperf_linux_rev.Core.Policy.Apps.{IsChoice, match_profile-IsChoice}
use uperf_linux_rev.Core.Policy.Config.{
  AppRule, WorkloadMatcher, ordered_enabled_rules, sort_rules, insert_rule,
}
use uperf_linux_rev.Core.Policy.Rules.{
  CompiledAppRule, Regexes, compile_app_rule, compile_app_rules, compile_matcher, match_profile,
}
use uperf_linux_rev.Core.Scene.{performance, powersave}

-- A pattern matches itself only.
abbrev literal : Regexes
literal = record { Regex = Text; compile = λ t. ok t; is_match = same_text }

abbrev game : ProcessInfo
game = record {
  identity = record { pid = 7; start_time_ticks = 1; uid = 1000 };
  owner_control_safe = true;
  comm = text "g";
  executable = none;
  desktop_id = none;
}

abbrev anything : WorkloadMatcher
anything = record { executable = none; desktop_id = none; comm_regex = none }

abbrev rules : List AppRule
rules =
    record {
      id = text "all";
      enabled = true;
      priority = negsuc 0;
      matcher = anything;
      profile = powersave;
    }
    ∷ record {
      id = text "game";
      enabled = true;
      priority = pos 5;
      matcher = record anything { comm_regex = some (text "g") };
      profile = performance;
    }
    ∷ []

abbrev compiled : List (CompiledAppRule literal)
compiled =
    record {
      matcher = record { executable = none; desktop_id = none; comm_regex = some (text "g") };
      profile = performance;
    }
    ∷ record {
      matcher = record { executable = none; desktop_id = none; comm_regex = none };
      profile = powersave;
    }
    ∷ []

compiles : compile_app_rules literal rules ≡ ok compiled
unfolding compile_app_rules compile_app_rule compile_matcher ordered_enabled_rules sort_rules
    insert_rule
compiles = refl

match_profile-IsChoice_example : IsChoice literal game rules (match_profile literal compiled game)
match_profile-IsChoice_example = match_profile-IsChoice literal game rules compiled compiles
