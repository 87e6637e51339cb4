-- ===== src/Plugins/Tags.antt =====
-- The tags of plugins/volume-tagging: that they can be read back, and where they come from.
use go_bitflow_collector.Prelude.{
  ◌≡◌, refl, sym, ap, ◌∙◌, ◌↔◌, true, false, Option, none, some, List, [], ◌∷◌, if◌then◌else◌,
  length, ◌<◌, ltb, contains, arith, Bool-cases, inl, inr,
}
use go_bitflow_collector.Pcap.{Text, eq_text}
use go_bitflow_collector.Pcap.Proc.{split}
use go_bitflow_collector.Pcap.Proc.Split.{split-part, split_at}
use go_bitflow_collector.Psutil.{find}
use go_bitflow_collector.Plugins.VolumeTagger.{
  VolumeInfo, LibvirtVolumeTagger, volume_ids, join, volume_tag,
}

-- No image has the separator in its name.
abbrev pub AreSeparable : List VolumeInfo → Type 0
AreSeparable [] = Unit {0}
AreSeparable (info ∷ infos) = (contains b'|' info.image ≡ false) × AreSeparable infos

abbrev AreParts : List Text → Type 0
AreParts [] = Unit {0}
AreParts (text ∷ texts) = (contains b'|' text ≡ false) × AreParts texts

volume_ids-AreParts : (infos : List VolumeInfo) → AreSeparable infos → AreParts (volume_ids infos)
unfolding volume_ids
volume_ids-AreParts [] h = tt
volume_ids-AreParts (info ∷ infos) (h, hs) =
    let rest = volume_ids-AreParts infos hs in
    elim (Bool-cases (eq_text info.image [])) [
      | inl empty ↦ ground (arith, empty, rest)
      | inr filled ↦ ground (arith, filled, h, rest)
    ]

split-join :
    (text : Text) (texts : List Text)
    → AreParts (text ∷ texts)
    → split b'|' (join (text ∷ texts)) ≡ text ∷ texts
unfolding join
split-join text [] (h, hs) = split-part b'|' text h
split-join text (next ∷ texts) (h, hs) =
    split_at b'|' text (join (next ∷ texts)) h ∙ ap (λ rest. text ∷ rest) (split-join next texts hs)

abbrev tag_of : List Text → Option Text
tag_of ids = if ltb 0 (length ids) then some (join ids) else none

tag_of-split :
    (ids : List Text)
    → AreParts ids
    → ((tag : Text) → tag_of ids ≡ some tag → split b'|' tag ≡ ids) × (tag_of ids ≡ none ↔ ids ≡ [])
tag_of-split [] h = (λ tag e. cc, (λ e. refl, λ e. refl))
tag_of-split (text ∷ texts) h = (
  λ tag e.
      let same : join (text ∷ texts) ≡ tag = ground (arith, e) in
      ap (split b'|') (sym same) ∙ split-join text texts h,
  (λ e. ground (arith, e), λ e. ground (arith, e)),
)

volume_tag-tag_of :
    (l : LibvirtVolumeTagger) (name : Text) (infos : List VolumeInfo)
    → find name l.instance_to_volume_info ≡ some infos
    → volume_tag l name ≡ tag_of (volume_ids infos)
unfolding volume_tag
volume_tag-tag_of l name infos found = rw (found, volume_tag)

-- The names of the images that have one, in the order of the volumes.
pub data Names : List VolumeInfo → List Text → Type 0 where
  no_volume : Names [] []
  unnamed :
      {info : VolumeInfo} {infos : List VolumeInfo} {names : List Text}
      → length info.image ≡ 0
      → Names infos names
      → Names (info ∷ infos) names
  named :
      {info : VolumeInfo} {infos : List VolumeInfo} {names : List Text}
      → 0 < length info.image
      → Names infos names
      → Names (info ∷ infos) (info.image ∷ names)

empty-length : (text : Text) → eq_text text [] ≡ true → length text ≡ 0
unfolding eq_text
empty-length [] e = refl
empty-length (b ∷ text) e = absurd (cc e)

filled-length : (text : Text) → eq_text text [] ≡ false → 0 < length text
unfolding eq_text
filled-length [] e = absurd (cc e)
filled-length (b ∷ text) e = omega arith

volume_ids-Names : (infos : List VolumeInfo) → Names infos (volume_ids infos)
unfolding volume_ids
volume_ids-Names [] = no_volume
volume_ids-Names (info ∷ infos) =
    let rest = volume_ids-Names infos in
    elim (Bool-cases (eq_text info.image [])) [
      | inl empty ↦ rw empty (unnamed (empty-length info.image empty) rest)
      | inr filled ↦ rw filled (named (filled-length info.image filled) rest)
    ]

split-volume_tag :
    (l : LibvirtVolumeTagger) (name : Text) (infos : List VolumeInfo)
    → find name l.instance_to_volume_info ≡ some infos
    → AreSeparable infos
    → ((tag : Text) → volume_tag l name ≡ some tag → split b'|' tag ≡ volume_ids infos)
      × ((volume_tag l name ≡ none) ↔ (volume_ids infos ≡ []))
split-volume_tag l name infos found h =
    rw (volume_tag-tag_of l name infos found)
      (tag_of-split (volume_ids infos) (volume_ids-AreParts infos h))

-- The tag of a machine whose images have no `|` in their names is set exactly if an image has a
-- name that is not empty, and splitting it at `|` gives these names back, in the order of the
-- volumes.
pub volume_tag-split :
    (l : LibvirtVolumeTagger) (name : Text) (infos : List VolumeInfo)
    → find name l.instance_to_volume_info ≡ some infos
    → AreSeparable infos
    → (names : List Text) × Names infos names
      × ((tag : Text) → volume_tag l name ≡ some tag → split b'|' tag ≡ names)
      × ((volume_tag l name ≡ none) ↔ (names ≡ []))
volume_tag-split l name infos found h =
    let (splits, unset) = split-volume_tag l name infos found h in
    (volume_ids infos, volume_ids-Names infos, splits, unset)
