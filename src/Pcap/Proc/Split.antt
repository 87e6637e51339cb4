-- ===== src/Pcap/Proc/Split.antt =====
-- strings.Split at the texts that it was joined of.
use go_bitflow_collector.Prelude.{ℕ, ◌≡◌, refl, false, [], ◌∷◌, ◌++◌, contains, arith}
use go_bitflow_collector.Pcap.{Text}
use go_bitflow_collector.Pcap.Proc.{split, add_first}

pub split-part : (sep : ℕ) (text : Text) → contains sep text ≡ false → split sep text ≡ text ∷ []
unfolding split add_first contains
split-part sep [] h = refl
split-part sep (b ∷ text) h = ground (arith, split-part sep text (ground (arith, h)), h)

pub split_at :
    (sep : ℕ) (text rest : Text)
    → contains sep text ≡ false
    → split sep (text ++ sep ∷ rest) ≡ text ∷ split sep rest
unfolding split add_first contains
split_at sep [] rest h = ground arith
split_at sep (b ∷ text) rest h = ground (arith, split_at sep text rest (ground (arith, h)), h)
