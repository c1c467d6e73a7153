-- ===== src/Examples/Starts.antt =====
-- The starts of the processes, and the pages of the welcome service.
use dockerdynomesh.Prelude.{
  not, any, eqb, ◌*◌, ◌≤◌, ◌≡◌, refl, ◌↔◌, Bool, true, false, List, [], ◌∷◌, none, if◌then◌else◌,
}
use dockerdynomesh.Prelude.Int.{pos}
use dockerdynomesh.Prelude.Result.{ok}
use dockerdynomesh.Text.{Text, codes, ◌==◌, split_commas, trim_space, has_double, ends_in}
use dockerdynomesh.Files.{Files}
use dockerdynomesh.Certgen.San.{validate_label}
use dockerdynomesh.Certgen.Start as Certgen
use dockerdynomesh.Certgen.Start.{Call, listen, signalled}
use dockerdynomesh.Certgen.Start.Sequence.{Life, start-Life}
use dockerdynomesh.Discoverer.Start as Discoverer
use dockerdynomesh.Discoverer.Start.{duration_of_ms}
use dockerdynomesh.Discoverer.Start.Window.{duration_of_ms-exact}
use dockerdynomesh.Discoverer.Start.Ready.{Started, start-Started}
use dockerdynomesh.Welcome
use dockerdynomesh.Welcome.{Server, Page, validate_config, install_script, serve}
use dockerdynomesh.Welcome.Config.{IsUsable, server_with, addresses, start_iff}
use dockerdynomesh.Welcome.Install.{IsHarmless, start-IsHarmless}
use dockerdynomesh.Welcome.Pages.{Served, serve-Served}
use dockerdynomesh.Text.Label.{matches_label}

duration_of_ms-exact_example :
    (duration_of_ms (pos 500) ≡ pos (500 * 1_000_000)) ↔ (500 ≤ 9_223_372_036_854)
duration_of_ms-exact_example = duration_of_ms-exact 500

-- An environment in which only the extra suffixes are set, badly.
abbrev env : Text → Text
env k = if k == codes "TAKEOVER_SUFFIXES" then codes "lan, -" else []

abbrev no_flags : Discoverer.Flags
no_flags = record {
  suffix = none;
  machine = none;
  tailnet = none;
  out = none;
  certgen = none;
  debounce_ms = none;
}

start-Started_example : Started env true no_flags (Discoverer.start env true no_flags)
start-Started_example = start-Started env true no_flags

abbrev certgen_flags : Certgen.Flags
certgen_flags = record {
  cert = codes "c";
  key = codes "k";
  socket = codes "s";
  mkcert = codes "mkcert";
  ca_root = codes "r";
}

-- Removals fail, and so does the listener.
abbrev works : List Call → Call → Bool
works before (Call.remove path) = false
works before (Call.listen path) = false
works before _ = true

start-Life_example :
    Life works
      (λ path. path)
      certgen_flags
      signalled
      (Certgen.start works (λ path. path) certgen_flags signalled)
start-Life_example = start-Life works (λ path. path) certgen_flags signalled

-- An address can be bound once.
abbrev free : List Text → Text → Bool
free bound address = not (any (λ b. b == address) bound)

abbrev flags : Welcome.Flags
flags = record {
  listen = codes ":80, ,:81";
  machine = codes "box";
  suffix = codes "test";
  tailnet = codes "tail.net";
  root = codes "/root.pem";
}

abbrev server : Server
server = server_with flags

abbrev both : List Text
both = codes ":80" ∷ codes ":81" ∷ []

starts : Welcome.start free flags ≡ ok (server, both)
unfolding Welcome.start validate_config validate_label matches_label has_double ends_in split_commas
    ◌==◌ trim_space
starts = refl

start_iff_example : (Welcome.start free flags ≡ ok (server, both)) ↔ (
    IsUsable free flags
    × (server ≡ server_with flags)
    × (both ≡ addresses (split_commas flags.listen)))
start_iff_example = start_iff free flags server both

start-IsHarmless_example : IsHarmless server (install_script server)
start-IsHarmless_example = start-IsHarmless free flags server both starts

abbrev no_root : Files Text
no_root path = none

-- Every clean path begins with a slash.
abbrev clean : Text → Text
clean [] = codes "/"
clean (c ∷ path) = if eqb c b'/' then c ∷ path else b'/' ∷ (c ∷ path)

abbrev moved : Text → Page
moved path = record {
  status = 301;
  content_type = codes "text/html; charset=utf-8";
  disposition = none;
  body = path;
}

serve-Served_example :
    Served clean moved
      (λ s. [])
      server
      no_root
      (codes "/root.crt")
      (serve clean moved (λ s. []) server no_root (codes "/root.crt"))
serve-Served_example = serve-Served clean moved (λ s. []) server no_root (codes "/root.crt")
