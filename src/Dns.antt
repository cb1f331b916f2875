-- ===== src/Dns.antt =====
-- The DNS messages that the program handles. They are values of the crate hickory-proto: here a
-- message is the record of what its accessors read and write. Op codes, response codes, record
-- types, classes and EDNS option codes are their numbers on the wire, and a name is the text that
-- `Name::to_ascii` prints. What the crate computes (comparison of names, the wire format,
-- truncation) is the parameter `Hickory`.
pub mod OpCode
pub mod Rcode
pub mod RecordType
use ferrumdns.Base.{
  ℕ, ◌≡◌, Bool, true, false, ◌&&◌, Option, none, some, List, [], ◌∷◌, Text, ◌==◌, Error, Result,
}

pub data Ip : Type 0 where
  v4 v6 : ℕ → Ip

pub data MessageType : Type 0 where
  query response : MessageType

abbrev pub class_in : ℕ
class_in = 1

-- `EdnsCode::Subnet`.
abbrev pub subnet_code : ℕ
subnet_code = 8

abbrev pub Name : Type 0
Name = Text

pub record Query : Type 0 where
  pub name : Name
  pub query_type : ℕ
  pub query_class : ℕ

-- Any other record data is its type and its bytes.
pub data Rdata : Type 0 where
  a aaaa : ℕ → Rdata
  cname : Name → Rdata
  raw : ℕ → List ℕ → Rdata

pub record Record : Type 0 where
  pub name : Name
  pub dns_class : ℕ
  pub ttl : ℕ
  pub rdata : Rdata

abbrev pub type_of : Rdata → ℕ
type_of (Rdata.a ip) = RecordType.a
type_of (Rdata.aaaa ip) = RecordType.aaaa
type_of (Rdata.cname n) = RecordType.cname
type_of (Rdata.raw t bytes) = t

abbrev pub record_type : Record → ℕ
record_type r = type_of r.rdata

pub record ClientSubnet : Type 0 where
  pub addr : Ip
  pub source_prefix : ℕ
  pub scope_prefix : ℕ

pub data EdnsOption : Type 0 where
  subnet : ClientSubnet → EdnsOption
  unknown : List ℕ → EdnsOption

pub record Edns : Type 0 where
  pub max_payload : ℕ
  pub version : ℕ
  pub dnssec_ok : Bool
  pub options : List (ℕ × EdnsOption)

pub record Message : Type 0 where
  pub id : ℕ
  pub message_type : MessageType
  pub op_code : ℕ
  pub authoritative : Bool
  pub truncated : Bool
  pub recursion_desired : Bool
  pub recursion_available : Bool
  pub authentic_data : Bool
  pub checking_disabled : Bool
  pub response_code : ℕ
  pub queries : List Query
  pub answers : List Record
  pub name_servers : List Record
  pub additionals : List Record
  pub edns : Option Edns

-- `Message::new()`.
abbrev pub new_message : Message
new_message = record {
  id = 0;
  message_type = MessageType.query;
  op_code = OpCode.query;
  authoritative = false;
  truncated = false;
  recursion_desired = false;
  recursion_available = false;
  authentic_data = false;
  checking_disabled = false;
  response_code = Rcode.no_error;
  queries = [];
  answers = [];
  name_servers = [];
  additionals = [];
  edns = none;
}

-- What the crate computes.
pub record Hickory : Type 0 where
  -- `==` of names, which ignores case
  pub name_eq : Name → Name → Bool
  -- `set_fqdn(true)`
  pub set_fqdn : Name → Name
  -- `Name::from_ascii`, and `Name::from_str`
  pub from_ascii : Text → Option Name
  pub from_str : Text → Option Name
  -- the payload size that `set_max_payload` stores
  pub payload : ℕ → ℕ
  -- `to_vec` and `from_vec`
  pub to_vec : Message → Option (List ℕ)
  pub from_vec : List ℕ → Option Message
  pub truncate : Message → Message
  -- `parse` of a record type
  pub type_from_str : Text → Option ℕ
  -- how record types, classes, response codes and addresses are printed
  pub type_text : ℕ → Text
  pub class_text : ℕ → Text
  pub rcode_text : ℕ → Text
  pub ip_text : Ip → Text

-- `==` of lists of questions.
module _ (H : Hickory) where
  unfoldable pub question_eq : Query → Query → Bool
  question_eq q p =
      H.name_eq q.name p.name && q.query_type == p.query_type && q.query_class == p.query_class

  unfoldable pub questions_eq : List Query → List Query → Bool
  unfolding question_eq
  questions_eq [] [] = true
  questions_eq (q ∷ qs) (p ∷ ps) = question_eq q p && questions_eq qs ps
  questions_eq _ _ = false
