-- ===== src/Services/Evidence.antt =====
-- How a snapshot is kept, wherever a handler has one: the object, then its row of event_evidence.
use ai_cctv_platform.Common.{String, ◌≢◌, Lacks}
use ai_cctv_platform.Tenancy.World.{Runtime}
use ai_cctv_platform.Tenancy.Rls.{
  TenantContext, Handler, put_object, new_id, insert_evidence, ◌>>=◌, ◌>>◌,
}
use ai_cctv_platform.Tenancy.Isolation.{Spares, Spares-bind, Spares-seq}
use ai_cctv_platform.Tenancy.Isolation.Statements.{
  BoundElsewhere, put_object-Spares, new_id-Spares, insert_evidence-Spares,
}
use ai_cctv_platform.Services.Storage.{build_evidence_key}
use ai_cctv_platform.Services.Storage.Keys.{build_evidence_key-outside}

module _ (rt : Runtime) (ctx : TenantContext) where
  unfoldable pub store_evidence : String → String → String → String → Handler (Unit {0})
  store_evidence organization_id event_id key content = do
    put_object key content
    id ← new_id rt
    insert_evidence ctx (record {
      id = id;
      organization_id = organization_id;
      event_id = event_id;
      storage_key = key;
    })

  pub store_evidence-Spares :
      {o : String}
      → BoundElsewhere ctx o
      → (org site camera event filename content : String) → Lacks b'/' org
      → Lacks b'/' o
      → org ≢ o
      → Spares o
          (store_evidence org event (build_evidence_key org site camera event filename) content)
  unfolding store_evidence
  store_evidence-Spares {o} b org site camera event filename content plain plain_other apart =
      Spares-seq
        (put_object-Spares _ _ (build_evidence_key-outside _ _ _ _ _ o plain plain_other apart))
        (Spares-bind (new_id-Spares rt) (λ id. insert_evidence-Spares b _))
