-- ===== src/Peer/Wwv.antt =====
-- Propagation bulletins: peer/wwv.go.
use go_cluster.Prelude.{
  ℕ, Bool, Option, none, some, get_elem?, List, [], ◌∷◌, ◌++◌, if◌then◌else◌, Bytes,
}
use go_cluster.Prelude.Int.{ℤ}
use go_cluster.Prelude.Text.{ascii, ◌=ᵇ◌, trim_space, to_upper, upper_trim, join_byte}
use go_cluster.Peer.Frame.{Frame, payload_fields}

pub record WwvEvent : Type 0 where
  pub kind : Bytes
  pub date : Bytes
  pub hour : Bytes
  pub sfi : Bytes
  pub a : Bytes
  pub k : Bytes
  pub forecast : Bytes
  pub exp_k : Bytes
  pub r : Bytes
  pub sa : Bytes
  pub gmf : Bytes
  pub aurora : Bytes
  pub logger : Bytes
  pub origin : Bytes
  pub extra : List Bytes
  pub hop : ℤ

abbrev pub last_field : List Bytes → Bytes
last_field [] = []
last_field (field ∷ []) = trim_space field
last_field (field ∷ next ∷ fields) = last_field (next ∷ fields)

-- `if len(fields) > i { ... = strings.TrimSpace(fields[i]) }`, from the empty string.
abbrev pub field_at : ℕ → List Bytes → Bytes
field_at i fields = elim (get_elem? fields i) [ none ↦ [] | some field ↦ trim_space field ]

abbrev pub base_event : Frame → Bytes → Bytes → Bytes → Bytes → Bytes → List Bytes → WwvEvent
base_event frame date hour sfi a k extra = record {
  kind = frame.frame_type;
  date = date;
  hour = hour;
  sfi = sfi;
  a = a;
  k = k;
  forecast = [];
  exp_k = [];
  r = [];
  sa = [];
  gmf = [];
  aurora = [];
  logger = [];
  origin = [];
  extra = extra;
  hop = frame.hop;
}

-- The cases of the `switch` on the type.
abbrev pub typed_event : Bytes → List Bytes → WwvEvent → WwvEvent
typed_event upper fields ev =
    if upper =ᵇ ascii "PC23"
    then record ev {
      forecast = field_at 5 fields;
      logger = field_at 6 fields;
      origin = field_at 7 fields;
    }
    else if upper =ᵇ ascii "PC73"
    then record ev {
      exp_k = field_at 5 fields;
      r = field_at 6 fields;
      sa = field_at 7 fields;
      gmf = field_at 8 fields;
      aurora = field_at 9 fields;
      logger = field_at 10 fields;
      origin = field_at 11 fields;
    }
    else ev

abbrev pub with_origin : List Bytes → WwvEvent → WwvEvent
with_origin fields ev = if ev.origin =ᵇ [] then record ev { origin = last_field fields } else ev

abbrev pub wwv_of : Frame → List Bytes → Option WwvEvent
wwv_of frame (date ∷ hour ∷ sfi ∷ a ∷ k ∷ f5 ∷ rest) =
    let fields = date ∷ hour ∷ sfi ∷ a ∷ k ∷ f5 ∷ rest in
    some (
      with_origin fields (
        typed_event (upper_trim frame.frame_type) fields
          (base_event frame date hour sfi a k (f5 ∷ rest))))
wwv_of frame _ = none

-- `parseWWV`; none stands for false.
unfoldable pub parse_wwv : Frame → Option WwvEvent
unfolding payload_fields trim_space upper_trim
parse_wwv frame = wwv_of frame (payload_fields frame.fields)

-- `if value != "" { parts = append(parts, name+value) }`, in front of the later parts.
abbrev pub part : Bytes → Bytes → List Bytes → List Bytes
part name value parts = if value =ᵇ [] then parts else (name ++ value) ∷ parts

abbrev pub wwv_parts : WwvEvent → List Bytes
wwv_parts ev =
    part (ascii "SFI=") ev.sfi
      (part (ascii "A=") ev.a (part (ascii "K=") ev.k (part (ascii "Forecast=") ev.forecast [])))

abbrev pub wcy_parts : WwvEvent → List Bytes
wcy_parts ev = part (ascii "K=") ev.k (
    part (ascii "expK=") ev.exp_k (
      part (ascii "A=") ev.a (
        part (ascii "R=") ev.r (
          part (ascii "SFI=") ev.sfi (
            part (ascii "SA=") ev.sa
              (part (ascii "GMF=") ev.gmf (part (ascii "Au=") ev.aurora [])))))))

-- `strings.Join(parts, " ")` is not reached without parts.
abbrev pub wwv_line : Bytes → Bytes → Bytes → List Bytes → Bytes
wwv_line kind logger hour [] = []
wwv_line kind logger hour (p ∷ parts) =
    kind
    ++ ascii " de "
    ++ logger
    ++ (if hour =ᵇ [] then ascii " : " else ascii " <" ++ hour ++ ascii "> : ")
    ++ join_byte b' ' (p ∷ parts)

abbrev pub wwv_logger : WwvEvent → Bytes
wwv_logger ev = if trim_space ev.logger =ᵇ [] then trim_space ev.origin else trim_space ev.logger

abbrev pub is_wcy : WwvEvent → Bool
is_wcy ev = to_upper ev.kind =ᵇ ascii "PC73"

-- `formatWWVLine`: the kind and the line.
unfoldable pub format_wwv_line : WwvEvent → Bytes × Bytes
unfolding trim_space to_upper join_byte
format_wwv_line ev =
    let kind = if is_wcy ev then ascii "WCY" else ascii "WWV" in
    (
      kind,
      if wwv_logger ev =ᵇ []
          then []
          else wwv_line kind (wwv_logger ev) (trim_space ev.hour)
              (if is_wcy ev then wcy_parts ev else wwv_parts ev),
    )
