-- ===== src/Router/Pattern.antt =====
-- routeSegment and segPart of pkg/runtime/router.go. The Go structs are tagged by which field is
-- set; a parameter is the case whose name is not empty.
use fgoths_framework.Prelude.{List}
use fgoths_framework.Prelude.Text.{Str}

pub data SegPart : Type 0 where
  lit : Str → SegPart
  param : Str → SegPart

pub data RouteSegment : Type 0 where
  literal : Str → RouteSegment
  whole : Str → RouteSegment
  mixed : List SegPart → RouteSegment
