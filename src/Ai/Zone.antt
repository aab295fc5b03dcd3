-- ===== src/Ai/Zone.antt =====
-- server/src/ai/zone.ts: whether a detection's center lies in a zone. JavaScript's numbers and their
-- operations are a parameter.
use ai_cctv_platform.Common.{
  Bool, true, false, ◌&&◌, ◌||◌, not, Option, some, none, List, [], ◌∷◌, coalesce, is_some, leb,
  length, if◌then◌else◌,
}

-- The arithmetic and the comparisons of `number`.
pub record NumberOps (N : Type 0) : Type 0 where
  pub zero_n : N
  pub one_n : N
  pub add : N → N → N
  pub sub : N → N → N
  pub mul : N → N → N
  pub div : N → N → N
  pub half : N → N
  pub min_n : N → N → N
  pub max_n : N → N → N
  pub three_tenths : N
  pub lt : N → N → Bool
  pub le : N → N → Bool

pub data GeometryType : Type 0 where
  polygon rectangle : GeometryType

pub record BBox (N : Type 0) : Type 0 where
  pub x : N
  pub y : N
  pub w : N
  pub h : N

pub record ZoneGeometry (N : Type 0) : Type 0 where
  pub kind : Option GeometryType
  pub points : Option (List (N × N))
  pub x : Option N
  pub y : Option N
  pub width : Option N
  pub height : Option N

abbrev pub is_rectangle : Option GeometryType → Bool
is_rectangle (some rectangle) = true
is_rectangle _ = false

abbrev pub is_polygon : Option GeometryType → Bool
is_polygon (some polygon) = true
is_polygon _ = false

abbrev differ : Bool → Bool → Bool
differ true b = not b
differ false b = b

module _ {N : Type 0} (ops : NumberOps N) where
  unfoldable pub bbox_center : BBox N → N × N
  bbox_center b = (ops.add b.x (ops.half b.w), ops.add b.y (ops.half b.h))

  -- The test on one edge, from a point to the one before it.
  unfoldable pub crosses : N → N → N × N → N × N → Bool
  crosses px py (xi, yi) (xj, yj) =
      differ (ops.lt py yi) (ops.lt py yj)
      && ops.lt px (ops.add (ops.div (ops.mul (ops.sub xj xi) (ops.sub py yi)) (ops.sub yj yi)) xi)

  abbrev pub last_point : N × N → List (N × N) → N × N
  last_point p [] = p
  last_point p (q ∷ qs) = last_point q qs

  -- The loop over the points, each with the one before it.
  unfoldable pub cast_ray : N → N → N × N → List (N × N) → Bool → Bool
  unfolding crosses
  cast_ray px py previous [] inside = inside
  cast_ray px py previous (p ∷ ps) inside =
      cast_ray px py p ps (if crosses px py p previous then not inside else inside)

  unfoldable pub point_in_polygon : N → N → List (N × N) → Bool
  unfolding cast_ray
  point_in_polygon px py [] = false
  point_in_polygon px py (p ∷ ps) = cast_ray px py (last_point p ps) (p ∷ ps) false

  unfoldable pub in_rectangle : N → N → ZoneGeometry N → Bool
  in_rectangle cx cy g =
      let gx = coalesce g.x ops.zero_n in
      let gy = coalesce g.y ops.zero_n in
      let gw = coalesce g.width ops.one_n in
      let gh = coalesce g.height ops.one_n in
      ops.le gx cx && ops.le cx (ops.add gx gw) && ops.le gy cy && ops.le cy (ops.add gy gh)

  -- A geometry with neither shape is the whole frame.
  unfoldable pub in_geometry : N → N → ZoneGeometry N → Bool
  unfolding in_rectangle point_in_polygon
  in_geometry cx cy g =
      let points = coalesce g.points [] in
      if is_rectangle g.kind || is_some g.width && is_some g.height
      then in_rectangle cx cy g
      else if is_polygon g.kind && leb 3 (length points)
      then point_in_polygon cx cy points
      else true

  unfoldable pub detection_in_zone : BBox N → Option (ZoneGeometry N) → Bool
  unfolding bbox_center in_geometry
  detection_in_zone bbox none = true
  detection_in_zone bbox (some g) = let (cx, cy) = bbox_center bbox in in_geometry cx cy g
