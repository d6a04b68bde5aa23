-- ===== src/Metering/Event.antt =====
-- common/types/accounting.go and accounting/component/metering.go: a metering event and its row.
use csghub_server.Prelude.{codes, Text, ℕ, if◌then◌else◌, ℤ, pos, int_eq}

pub record MeteringEvent : Type 0 where
  pub uuid : Text
  pub user_uuid : Text
  pub value : ℤ
  pub value_type : ℤ
  pub scene : ℤ
  pub op_uid : Text
  pub resource_id : Text
  pub resource_name : Text
  pub customer_id : Text
  pub created_at : ℕ
  pub extra : Text

-- A row of the table; `value` is the float with the integer's value.
pub record AccountMetering : Type 0 where
  pub event_uuid : Text
  pub user_uuid : Text
  pub value : ℤ
  pub value_type : ℤ
  pub scene : ℤ
  pub op_uid : Text
  pub resource_id : Text
  pub resource_name : Text
  pub customer_id : Text
  pub recorded_at : ℕ
  pub extra : Text
  pub sku_unit_type : Text

abbrev pub unit_minute : Text
unit_minute = codes "minute"

abbrev pub unit_token : Text
unit_token = codes "token"

abbrev pub unit_repo : Text
unit_repo = codes "repository"

abbrev pub scene_model_inference : ℤ
scene_model_inference = pos 10

abbrev pub scene_space : ℤ
scene_space = pos 11

abbrev pub scene_model_finetune : ℤ
scene_model_finetune = pos 12

abbrev pub scene_multi_sync : ℤ
scene_multi_sync = pos 13

abbrev pub scene_starship : ℤ
scene_starship = pos 20

abbrev pub get_unit_string : ℤ → Text
get_unit_string scene =
    if int_eq scene scene_model_inference
    then unit_minute
    else if int_eq scene scene_space
    then unit_minute
    else if int_eq scene scene_model_finetune
    then unit_minute
    else if int_eq scene scene_starship
    then unit_token
    else if int_eq scene scene_multi_sync
    then unit_repo
    else unit_minute

-- What `SaveMeteringEventRecord` writes.
unfoldable pub row_of : MeteringEvent → AccountMetering
row_of e = record {
  event_uuid = e.uuid;
  user_uuid = e.user_uuid;
  value = e.value;
  value_type = e.value_type;
  scene = e.scene;
  op_uid = e.op_uid;
  resource_id = e.resource_id;
  resource_name = e.resource_name;
  customer_id = e.customer_id;
  recorded_at = e.created_at;
  extra = e.extra;
  sku_unit_type = get_unit_string e.scene;
}
