-- ===== src/Examples/Processes.antt =====
-- The discoverer from its start on.
use dockerdynomesh.Prelude.{
  ◌≡◌, ◌*◌, refl, Bool, true, false, List, [], ◌∷◌, none, some, if◌then◌else◌, arith,
}
use dockerdynomesh.Prelude.Int.{pos, int_le}
use dockerdynomesh.Prelude.Sort.{sort}
use dockerdynomesh.Prelude.Result.{ok}
use dockerdynomesh.Text.{
  Text, codes, ◌==◌, split_commas, trim_space, has_double, ends_in, text_le, trim_prefix,
  has_prefix, to_lower,
}
use dockerdynomesh.Files.{put, rename}
use dockerdynomesh.Certgen.Reissue.{CertInfo, reissue, current_sans, commit, sans_equal}
use dockerdynomesh.Certclient.{new_client, client_reissue, interpret}
use dockerdynomesh.Certgen.Api.{serve, handle_reissue, validate}
use dockerdynomesh.Certgen.San.{validate_label}
use dockerdynomesh.Text.Label.{matches_label}
use dockerdynomesh.Inspect.{
  projects_of, lookup, from_container, infer_hostname, network_ip, select_port, choose_exposed,
  port_numbers, first_favourite,
}
use dockerdynomesh.Discoverer.Reconcile.{reconcile_with, list_eligible, reconcile}
use dockerdynomesh.Render.{render, routers}
use dockerdynomesh.Text.Number.{atoi}
use dockerdynomesh.Discoverer.AtomicWrite.{atomic_write}
use dockerdynomesh.Discoverer.Suffixes.{parse_takeover_suffixes}
use dockerdynomesh.Discoverer.Boot.{boot_reconcile}
use dockerdynomesh.Discoverer.Debounce.{advance, bump}
use dockerdynomesh.Discoverer.EventLoop.{
  event, reconciled, Loop, Move, elapse, container_event, fire, going, step, run_moves, run,
}
use dockerdynomesh.Discoverer.EventLoop.Quiet.{IsQuiet}
use dockerdynomesh.Discoverer.Start.{Flags, settings_of, start, duration_of_ms, env_or}
use dockerdynomesh.Discoverer.System.{World}
use dockerdynomesh.Discoverer.Process.{Machine, attempt, machine_of, main}
use dockerdynomesh.Discoverer.Process.Whole.{main-IsQuiet}
use dockerdynomesh.Examples.Data.{web, tool}
use dockerdynomesh.Examples.Systems.{platform, world}

abbrev env : Text → Text
env k = []

-- A window of no time, so that a few steps of the clock are enough.
abbrev flags : Flags
flags = record {
  suffix = some (codes "test");
  machine = none;
  tailnet = none;
  out = none;
  certgen = none;
  debounce_ms = some (pos 0);
}

abbrev never : Machine CertInfo → Bool
never m = false

abbrev moves : List Move
moves = container_event ∷ elapse ∷ fire ∷ []

-- In the world of the second reconcile the disk is full.
abbrev full : World CertInfo
full = record world { faults = record world.faults { write_all = false } }

abbrev machine : Machine CertInfo
machine =
    machine_of (settings_of env flags (codes "test" ∷ []) (codes "test")) world (world ∷ full ∷ [])

abbrev ended : Loop (Machine CertInfo)
ended = record {
  now = 1;
  timer = record { deadline = none; tick = false };
  notes = reconciled 1 ∷ event 0 ∷ [];
  world = (attempt platform (attempt platform machine).1).1;
}

reached :
    main platform never true env true flags 0 world (world ∷ full ∷ []) moves
    ≡ ok (some (going ended))
unfolding reconcile client_reissue new_client serve interpret handle_reissue ◌==◌ validate
    validate_label matches_label has_double ends_in projects_of sort lookup reissue current_sans
    commit rename sans_equal list_eligible reconcile_with put text_le from_container infer_hostname
    trim_prefix render atomic_write routers has_prefix network_ip select_port choose_exposed
    port_numbers atoi to_lower int_le first_favourite main start parse_takeover_suffixes
    split_commas trim_space run run_moves step advance bump settings_of duration_of_ms
    boot_reconcile env_or
reached = refl

main-IsQuiet_example : IsQuiet (0 * 1_000_000) ended.notes
main-IsQuiet_example =
    main-IsQuiet platform never true env true flags 0 world (world ∷ full ∷ []) moves (going ended)
      0 refl (omega arith) reached

-- Another container has started, and the disk has room again.
abbrev later : World CertInfo
later = record world {
  listing = some (web.id ∷ tool.id ∷ []);
  containers = λ id. some (if id == tool.id then tool else web);
}
