-- ===== src/Runner/Tests.antt =====
-- Runs of the directory of peers and of the hosts file at concrete records.
use forgewire_fabric.Prelude.{
  ◌≡◌, refl, true, false, none, some, [], ◌∷◌, arith, Text, text, text_eq, any,
}
use forgewire_fabric.Runner.Directory.{Observed, NodeDirectory, merge, expire, directory_tick}
use forgewire_fabric.Runner.Merging.{IsSound, HasSource, directory_tick-IsSound}
use forgewire_fabric.Runner.Changes.{address}
use forgewire_fabric.Runner.Conflicts.{seen, older_record_moves}
use forgewire_fabric.Runner.Hosts.{render_block, splice_block, host_lines, reconcile}
use forgewire_fabric.Runner.Hosts.Again.{reconcile_settles}

abbrev self : Text
self = text "n0"

abbrev peer : Observed
peer = seen (text "n1") (text "alpha") (text "10.0.0.5") 100 101

abbrev own : Observed
own = seen self (text "beta") (text "10.0.0.9") 100 101

abbrev known : NodeDirectory
known =
    (
      text "alpha",
      record {
        hostname = text "alpha";
        ip = text "10.0.0.5";
        node_id = text "n1";
        last_seen = 101;
        verified = true;
        record_ts = 100;
      },
    )
    ∷ []

learns : merge [] (peer ∷ own ∷ []) self ≡ (known, text "alpha" ∷ [])
unfolding merge
learns = refl

forgets : expire 400 180 known ≡ ([], text "alpha" ∷ [])
unfolding expire
forgets = refl

directory_tick-IsSound_example :
    IsSound
      (HasSource [] (peer ∷ own ∷ []))
      self
      (directory_tick [] (peer ∷ own ∷ []) self 110 180).0
directory_tick-IsSound_example = directory_tick-IsSound self (peer ∷ own ∷ []) 110 180 [] (λ h. tt)

quiet : any (text_eq (text "gamma")) (merge [] (peer ∷ own ∷ []) self).1 ≡ false
unfolding merge
quiet = refl

older_record_moves_example :
    address
      (text "alpha")
      (merge []
        (seen (text "n1") (text "alpha") (text "10.0.0.5") 100 101
          ∷ seen (text "n1") (text "alpha") (text "10.0.0.5") 50 101
          ∷ seen (text "n1") (text "alpha") (text "10.0.0.7") 60 101
          ∷ [])
        self).0
    ≡ some (text "10.0.0.7")
older_record_moves_example =
    older_record_moves self (text "n1") (text "alpha") (text "10.0.0.5") (text "10.0.0.7") 100 50 60
      101 refl refl (ground arith) (ground arith)

abbrev hosts_file : Text
hosts_file = text "127.0.0.1 localhost\n# forgewire-managed begin\nold\n# forgewire-managed end\n\n"

rewritten :
    splice_block hosts_file (render_block (host_lines known))
    ≡ text
        "127.0.0.1 localhost\n# forgewire-managed begin (do not edit; rewritten by ForgeWireRunner)\n10.0.0.5 alpha alpha.local\n# forgewire-managed end\n"
unfolding splice_block render_block
rewritten = refl

reconcile_settles_example :
    reconcile (splice_block hosts_file (render_block (host_lines known))) known ≡ none
reconcile_settles_example = reconcile_settles hosts_file known refl refl
