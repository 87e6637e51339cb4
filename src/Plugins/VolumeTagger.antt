-- ===== src/Plugins/VolumeTagger.antt =====
-- plugins/volume-tagging: the tag with the volumes of a virtual machine. What the libvirt driver
-- returns is an argument; none is an error.
use go_bitflow_collector.Prelude.{
  Bool, true, false, Option, none, some, List, [], ◌∷◌, ◌++◌, if◌then◌else◌, not, ◌&&◌, ltb, length,
  ℤ, ◌+ℤ◌, ltb_ℤ,
}
use go_bitflow_collector.Pcap.{Text, eq_text}
use go_bitflow_collector.Psutil.{find, store}

pub record VolumeInfo : Type 0 where
  pub pool : Text
  pub image : Text
  pub driver : Text
  pub user : Text

-- A domain: what GetName and GetVolumeInfo return.
pub record Domain : Type 0 where
  pub get_name : Option Text
  pub get_volume_info : Option (List VolumeInfo)

pub record LibvirtVolumeTagger : Type 0 where
  pub volume_key : Text
  pub libvirt_instance_key : Text
  pub domains : List (Text × Domain)
  pub instance_to_volume_info : List (Text × List VolumeInfo)
  pub update_delay : ℤ
  pub last_update : ℤ

-- The loop of fetchDomains: the domains so far, and whether it ran to its end.
unfoldable pub take_domains : List Domain → List (Text × Domain) → List (Text × Domain) × Bool
take_domains [] domains = (domains, true)
take_domains (domain ∷ list) domains = elim domain.get_name [
  | none ↦ (domains, false)
  | some name ↦ take_domains list (store name domain domains)
]

-- `listed` is ListDomains after Connect; none is an error of either.
unfoldable pub fetch_domains :
    Option (List Domain) → List (Text × Domain) → List (Text × Domain) × Bool
unfolding take_domains
fetch_domains none domains = (domains, false)
fetch_domains (some list) domains = take_domains list domains

-- updateVolumeInfos, for a name that stands in the table of domains.
unfoldable pub update_volume_infos :
    Text → Domain → List (Text × List VolumeInfo) → List (Text × List VolumeInfo) × Bool
update_volume_infos instance_name domain infos = elim domain.get_volume_info [
  | none ↦ (infos, false)
  | some info ↦ (store instance_name info infos, true)
]

-- The loop of updateAllVolumeInfos: whether no error was added.
unfoldable pub fill_volume_infos :
    List (Text × Domain) → List (Text × List VolumeInfo) → List (Text × List VolumeInfo) × Bool
unfolding update_volume_infos
fill_volume_infos [] infos = (infos, true)
fill_volume_infos ((name, domain) ∷ domains) infos =
    let (infos1, ok) = update_volume_infos name domain infos in
    let (infos2, all_ok) = fill_volume_infos domains infos1 in (infos2, ok && all_ok)

-- updateAllVolumeInfos: the tagger, and whether no error is returned.
unfoldable pub update_all_volume_infos :
    Option (List Domain) → ℤ → LibvirtVolumeTagger → LibvirtVolumeTagger × Bool
unfolding fetch_domains fill_volume_infos
update_all_volume_infos listed now l =
    let (domains, fetched) = fetch_domains listed [] in
    let (infos, ok) = fill_volume_infos domains [] in
    if not fetched
    then (record l { domains = domains; instance_to_volume_info = [] }, false)
    else (record l { domains = domains; instance_to_volume_info = infos; last_update = now }, ok)

-- The loop over the volumes.
unfoldable pub volume_ids : List VolumeInfo → List Text
volume_ids [] = []
volume_ids (info ∷ infos) =
    let rest = volume_ids infos in if not (eq_text info.image []) then info.image ∷ rest else rest

-- strings.Join with the separator `|`.
unfoldable pub join : List Text → Text
join [] = []
join (text ∷ []) = text
join (text ∷ next ∷ texts) = text ++ b'|' ∷ join (next ∷ texts)

-- The tag that Sample sets, if it sets one.
unfoldable pub volume_tag : LibvirtVolumeTagger → Text → Option Text
unfolding volume_ids join
volume_tag l instance_name = elim (find instance_name l.instance_to_volume_info) [
  | none ↦ none
  | some infos ↦ let ids = volume_ids infos in if ltb 0 (length ids) then some (join ids) else none
]

-- Sample of the tagger: the tagger and the tags of the sample. A missing tag is the empty string.
-- `read_at` is the instant of the test, and `now` that of the end of an update.
unfoldable pub sample_tags :
    Option (List Domain)
    → ℤ
    → ℤ
    → LibvirtVolumeTagger
    → List (Text × Text)
    → LibvirtVolumeTagger × List (Text × Text)
unfolding update_all_volume_infos volume_tag
sample_tags listed read_at now l tags =
    let instance_name : Text = elim (find l.libvirt_instance_key tags) [
      | none ↦ []
      | some name ↦ name
    ] in
    let fresh =
      if ltb_ℤ (l.last_update +ℤ l.update_delay) read_at
      then (update_all_volume_infos listed now l).0
      else l in
    if not (eq_text instance_name [])
    then (
      fresh,
      elim (volume_tag fresh instance_name) [
        | none ↦ tags
        | some volumes ↦ store l.volume_key volumes tags
      ],
    )
    else (l, tags)
