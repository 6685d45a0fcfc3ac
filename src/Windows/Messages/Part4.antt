-- ===== src/Windows/Messages/Part4.antt =====
-- Cases of the `switch` of `OutputWindowCallbackMacro`, LeftSupport/LeftSupport/LeftWindows.cpp.
use mathlib.Core.List.{List, [], ◌∷◌}
use left_my_codes.Windows.Messages.Defs.{Case, always}

abbrev pub cases_4 : List Case
cases_4 =
    always "LVM_ARRANGE" "在Listview控件中图像显示时,排列项目,宏:ListView_Arrange"
    ∷ always "LVM_EDITLABELA" "编辑Listview控件中指定项目的文本(即label标签),宏:ListView_EditLabel"
    ∷ always "LVM_EDITLABELW" "编辑Listview控件中指定项目的文本(即label标签),宏:ListView_EditLabel"
    ∷ always "LVM_GETEDITCONTROL" "在Listview控件中,当列表控件正在进行编辑时,返回该编辑框的句柄,宏:ListView_GetEditControl"
    ∷ always "LVM_GETCOLUMNA" "获取Listview控件中某列的属性,宏:ListView_GetColumn"
    ∷ always "LVM_GETCOLUMNW" "获取Listview控件中某列的属性,宏:ListView_GetColumn"
    ∷ always "LVM_SETCOLUMNA" "设置Listview控件中某列的属性,宏:ListView_InsertColumn"
    ∷ always "LVM_SETCOLUMNW" "设置Listview控件中某列的属性,宏:ListView_InsertColumn"
    ∷ always "LVM_INSERTCOLUMNA" "向Listview控件插入一个列,宏:ListView_InsertColumn"
    ∷ always "LVM_INSERTCOLUMNW" "向Listview控件插入一个列,宏:ListView_InsertColumn"
    ∷ always "LVM_DELETECOLUMN" "删除Listview控件中的一个列,宏:ListView_DeleteColumn"
    ∷ always "LVM_GETCOLUMNWIDTH" "在Listview控件中获取指定列的宽度,宏:ListView_GetColumnWidth"
    ∷ always "LVM_SETCOLUMNWIDTH" "在Listview控件中设置指定列的宽度,宏:ListView_SetColumnWidth"
    ∷ always "LVM_GETHEADER" "在Listview控件中获取表头控件的句柄,宏:ListView_GetHeader"
    ∷ always "LVM_CREATEDRAGIMAGE" "在Listview控件中为指定的项目创建一个拖曳图像列表,宏:ListView_CreateDragImage"
    ∷ always "LVM_GETVIEWRECT" "当前所有项目所占用的矩形范围,宏:ListView_GetViewRect"
    ∷ always "LVM_GETTEXTCOLOR" "在Listview控件中获取文本颜色,宏:ListView_GetTextColor"
    ∷ always "LVM_SETTEXTCOLOR" "在Listview控件中设置文本颜色,宏:ListView_SetTextColor"
    ∷ always "LVM_GETTEXTBKCOLOR" "在Listview控件中获取文本背景色,宏:ListView_SetTextBkC"
    ∷ always "LVM_SETTEXTBKCOLOR" "在Listview控件中设置文本背景色,宏:ListView_SetTextBkColor"
    ∷ always "LVM_GETTOPINDEX" "在Listview控件中获取可视范围中首个项目的索引,宏:ListView_GetTopInd"
    ∷ always "LVM_GETCOUNTPERPAGE" "在Listview控件中获取当前可视项目数量,宏:ListView_GetCountPerPage"
    ∷ always "LVM_GETORIGIN" "在Listview控件中获取当前的原点,宏:ListView_GetOrigin"
    ∷ always "LVM_UPDATE" "用于刷新Listview控件,若该控件具有LVS_AUTOARRANGE风格,则会引起排列操作,宏:ListView_Update"
    ∷ always "LVM_SETITEMSTATE" "在Listview控件中设置项目状态,宏:ListView_SetItemState"
    ∷ always "LVM_GETITEMSTATE" "在Listview控件中获取项目状态,宏:ListView_GetItemS"
    ∷ always "LVM_GETITEMTEXTA" "在Listview控件中获取项目文本,宏:ListView_GetItemText"
    ∷ always "LVM_GETITEMTEXTW" "在Listview控件中获取项目文本,宏:ListView_GetItemText"
    ∷ always "LVM_SETITEMTEXTA" "在Listview控件中设置项目文本,宏:ListView_SetItemText"
    ∷ always "LVM_SETITEMTEXTW" "在Listview控件中设置项目文本,宏:ListView_SetItemText"
    ∷ always "LVM_SETITEMCOUNT"
        "在Listview控件(虚拟列表视图控件,LVS_OWNERDATA风格)中设置当前列表中项目的总数,宏:ListView_SetItemCount/ListView_SetItemCountEx"
    ∷ always "LVM_SORTITEMS" "在Listview控件中进行项目分类排序,宏:ListView_SortItems"
    ∷ always "LVM_SETITEMPOSITION32"
        "设置Listview控件的项目位置,LVM_SETITEMPOSITION消息不同的是,本消息使用32位的坐标,宏:ListView_SetItemPosition32"
    ∷ always "LVM_GETSELECTEDCOUNT" "获取Listview控件中被选择项目总数,宏:ListView_GetSelectedCount"
    ∷ always "LVM_GETITEMSPACING" "获取Listview控件的项目间距,宏:ListView_GetItemSpacing"
    ∷ always "LVM_GETISEARCHSTRINGA" "在Listview控件中获取增量搜索模式的字符串,宏:ListView_GetISearchString"
    ∷ always "LVM_GETISEARCHSTRINGW" "在Listview控件中获取增量搜索模式的字符串,宏:ListView_GetISearchString"
    ∷ always "LVM_SETICONSPACING" "在Listview控件中设置图标间距,宏:ListView_SetIconSpacing"
    ∷ always "LVM_SETEXTENDEDLISTVIEWSTYLE"
        "设置Listview控件的扩展风格,宏:ListView_SetExtendedListViewStyle/ListView_SetExtendedListViewStyleEx"
    ∷ always "LVM_GETEXTENDEDLISTVIEWSTYLE" "获取Listview控件的扩展风格,宏:ListView_GetExtendedListViewStyle"
    ∷ always "LVM_GETSUBITEMRECT" "获取Listview控件子项目的矩形范围,宏:ListView_GetSubItemRect"
    ∷ always "LVM_SUBITEMHITTEST" "对Listview控件进行点击测试,以确定哪个项目或子项目处于给定的位置,宏:ListView_SubItemHitTest"
    ∷ always "LVM_SETCOLUMNORDERARRAY" "在Listview控件中设置列显示的排序(从左至右),宏:ListView_SetColumnOrderArray"
    ∷ always "LVM_GETCOLUMNORDERARRAY" "在Listview控件中返回当前列中的左右对齐方式,宏:ListView_GetColumnOrderArray"
    ∷ always "LVM_SETHOTITEM" "在Listview控件中设置热点项目(热项),宏:ListView_SetHotItem"
    ∷ always "LVM_GETHOTITEM" "在Listview控件中获取热点项目(热项),宏:ListView_GetHotItem"
    ∷ always "LVM_SETHOTCURSOR" "在Listview控件中设置热点光标,宏:ListView_SetHotCursor"
    ∷ always "LVM_GETHOTCURSOR" "在Listview控件中获取热点光标,宏:ListView_GetHotCursor"
    ∷ always "LVM_APPROXIMATEVIEWRECT" "在Listview控件中计算显示一个项目所需的宽度和高度,宏:ListView_ApproximateViewRect"
    ∷ always "LVM_SETWORKAREAS" "在Listview控件中设置工作区,宏:ListView_SetWorkAreas"
    ∷ always "LVM_GETSELECTIONMARK" "在Listview控件中获取当前选择项目,宏:ListView_GetSelectionMark"
    ∷ always "LVM_SETSELECTIONMARK" "在Listview控件中设置当前选择项目,宏:ListView_SetSelectionMark"
    ∷ always "LVM_SETBKIMAGEA" "在Listview控件中设置设置背景图片,宏:ListView_SetBkImage"
    ∷ always "LVM_GETBKIMAGEA" "获取Listview控件的背景图片,宏:ListView_GetBkImage"
    ∷ always "LVM_GETWORKAREAS" "获取Listview控件的工作区矩形范围,宏:ListView_GetWorkAreas"
    ∷ always "LVM_SETHOVERTIME" "在Listview控件中设置鼠标在选择某项前停留在该项的延迟毫秒数,宏:ListView_SetHoverTime"
    ∷ always "LVM_GETHOVERTIME" "获取Listview控件的鼠标在选择某项前停留在该项的延迟毫秒数,宏:ListView_GetHoverTime"
    ∷ always "LVM_GETNUMBEROFWORKAREAS" "获取Listview控件的当前工作区中的项目数量,宏:ListView_GetNumberOfWorkAreas"
    ∷ always "LVM_SETTOOLTIPS" "设置Listview控件的工具提示控件,宏:ListView_SetToolTips"
    ∷ always "LVM_GETTOOLTIPS" "获取Listview控件的工具提示控件,宏:ListView_GetToolTips"
    ∷ always "LVM_SETBKIMAGEW" "以宽字符方式设置Listview控件的背景图,宏:ListView_SetBkImage"
    ∷ always "LVM_GETBKIMAGEW" "以宽字符方式获取Listview控件的背景图,宏:ListView_GetBkImage"
    ∷ always "LVN_ITEMCHANGING" "通知Listview控件的父窗:有个项目正被改变"
    ∷ always "LVN_ITEMCHANGED" "通知Listview控件的父窗:有个项目已经被改变"
    ∷ always "LVN_INSERTITEM" "通知Listview控件的父窗:有个新项目被插入了"
    ∷ always "LVN_DELETEITEM" "通知Listview控件的父窗:有个项目要被删除"
    ∷ always "LVN_DELETEALLITEMS" "通知Listview控件的父窗:所有项目要被删除"
    ∷ always "LVN_BEGINLABELEDITA" "通知Listview控件的父窗:一个项目的文本标签编辑的起点"
    ∷ always "LVN_BEGINLABELEDITW" "通知Listview控件的父窗:一个项目的文本标签编辑的起点"
    ∷ always "LVN_ENDLABELEDITA" "通知Listview控件的父窗:一个项目的文本标签编辑的终点"
    ∷ always "LVN_ENDLABELEDITW" "通知Listview控件的父窗:一个项目的文本标签编辑的终点"
    ∷ always "LVN_COLUMNCLICK" "通知Listview控件的父窗:一个列被点击了"
    ∷ always "LVN_BEGINDRAG" "通知Listview控件的父窗:鼠标左键的拖放操作开始了"
    ∷ always "LVN_BEGINRDRAG" "通知Listview控件的父窗:鼠标右键的拖放操作开始了"
    ∷ always "LVN_ODCACHEHINT" "通知消息,由虚列表控件在其可视区域的内容被改变时发送"
    ∷ always "LVN_ODFINDITEMA" "通知消息,由虚列表控件在需要其所有者查找特定的回调项目时发送"
    ∷ always "LVN_ODFINDITEMW" "通知消息,由虚列表控件在需要其所有者查找特定的回调项目时发送"
    ∷ always "LVN_ITEMACTIVATE" "通知消息,由虚列表控件在用户激活了某个项目时发送"
    ∷ always "LVN_ODSTATECHANGED" "通知消息,由虚列表控件在一个项目的状态或排列已被改变时发送"
    ∷ always "LVN_HOTTRACK" "通知消息,由虚列表控件在用户的鼠标掠过某个项目时发送"
    ∷ always "LVN_GETDISPINFOA" "由虚列表控件发送,请求父窗提供显示项目或对某个项目排序所需的信息"
    ∷ always "LVN_GETDISPINFOW" "由虚列表控件发送,请求父窗提供显示项目或对某个项目排序所需的信息"
    ∷ always "LVN_SETDISPINFOA" "通知Listview控件的父窗:它得更新某个项目的信息"
    ∷ always "LVN_SETDISPINFOW" "通知Listview控件的父窗:它得更新某个项目的信息"
    ∷ always "LVN_MARQUEEBEGIN" "通知Listview控件的父窗:某个边框选择已开始"
    ∷ always "LVN_GETINFOTIPA"
        "通知消息,由大图标的具有LVS_EX_INFOTIP扩展风格的Listview控件在它要请求附加的文本信息(显示于工具提示控件中)时发送"
    ∷ always "LVN_GETINFOTIPW"
        "通知消息,由大图标的具有LVS_EX_INFOTIP扩展风格的Listview控件在它要请求附加的文本信息(显示于工具提示控件中)时发送"
    ∷ always "TVM_CREATEDRAGIMAGE" "创建树控件的RAG图象,宏:TreeView_CreateDragImage"
    ∷ always "TVM_DELETEITEM" "删除树控件的项目,宏:TreeView_DeleteAllItems"
    ∷ always "TVM_EDITLABELA" "编辑树控件的标签,宏:TVN_BEGINLABELEDIT"
    ∷ always "TVM_EDITLABELW" "编辑树控件的标签,宏:TVN_BEGINLABELEDIT"
    ∷ always "TVM_ENDEDITLABELNOW" "结束编辑树控件的新标签,宏:TreeView_EndEditLabelNow"
    ∷ always "TVM_ENSUREVISIBLE" "保证树控件的某个项目可视,宏:TreeView_EnsureVisible"
    ∷ always "TVM_EXPAND" "扩展或收缩树控件某节点下的所有子节点,宏:TreeView_Expand"
    ∷ always "TVM_GETBKCOLOR" "获取树控件的背景色,宏:TreeView_GetBkColor"
    ∷ always "TVM_GETCOUNT" "获取树控件的项目数量,宏:TreeView_GetCount"
    ∷ always "TVM_GETEDITCONTROL" "获取树控件编辑框控件句柄(用于编辑某项文本),宏:TreeView_GetEditControl"
    ∷ always "TVM_GETIMAGELIST" "获取树控件的列表图片,返回图象句柄,宏:TreeView_GetImageList"
    ∷ always "TVM_GETINDENT" "获取树控件的子项相对于父项缩进的量(像素),宏:TreeView_GetIndent"
    ∷ always "TVM_GETINSERTMARKCOLOR" "返回一个包含当前插入编辑颜色的COLORREF,宏:TreeView_GetInsertMarkColor"
    ∷ always "TVM_GETISEARCHSTRING" "获取树控件的搜索文本,宏:TreeView_GetISearchString"
    ∷ always "TVM_GETITEMA" "获取树控件指定项的属性,相关结构:TVITEM,宏:TreeView_GetItem"
    ∷ always "TVM_GETITEMW" "获取树控件指定项的属性,相关结构:TVITEM,宏:TreeView_GetItem"
    ∷ always "TVM_GETITEMHEIGHT" "取树控件项目的行距,宏:TreeView_GetItemHeight"
    ∷ always "TVM_GETITEMRECT" "获取树控件项目的边界矩形,并确定该项是否可视,宏:TreeView_GetItemRect"
    ∷ always "TVM_GETNEXTITEM"
        "获取树控件下一项目的句柄,宏:TreeView_GetNextItem/TreeView_GetChild/TreeView_GetDropHilight/TreeView_GetFirstVisible/TreeView_GetLastVisible/TreeView_GetNextSibling/TreeView_GetNextVisible/TreeView_GetParent/TreeView_GetPrevSibling/TreeView_GetPrevVisible/TreeView_GetRoot/TreeView_GetSelection "
    ∷ always "TVM_GETSCROLLTIME" "获取树控件的最大滚动时间(毫秒),宏:TreeView_GetScrollTime"
    ∷ always "TVM_GETTEXTCOLOR" "获取树控件的文本颜色,宏:TreeView_GetTextColor"
    ∷ always "TVM_GETTOOLTIPS" "获取树控件所使用的工具提示控件的句柄,宏:TreeView_GetToolTips"
    ∷ always "TVM_GETUNICODEFORMAT" "获取树控件的UNICODE格式标志,宏:TreeView_GetUnicodeFormat"
    ∷ always "TVM_GETVISIBLECOUNT" "获取树控件中的可视项目数量,宏:TreeView_GetVisibleCount"
    ∷ always "TVM_HITTEST" "树控件点击测试,宏:TreeView_HitTest"
    ∷ always "TVM_INSERTITEMA" "在树控件中插入项目,宏:TreeView_InsertItem"
    ∷ always "TVM_INSERTITEMW" "在树控件中插入项目,宏:TreeView_InsertItem"
    ∷ always "TVM_SELECTITEM"
        "选取树控件的项目,宏:TreeView_Select/TreeView_SelectItem/TreeView_SelectDropTarget"
    ∷ always "TVM_SETBKCOLOR" "设置树控件的背景色,宏:TreeView_SetBkColor"
    ∷ always "TVM_SETIMAGELIST" "设置树控件的图象列表,宏:TreeView_SetImageList"
    ∷ always "TVM_SETINDENT" "设置树控件缩进的宽度,并重画控件以反映新的宽度,宏:TreeView_SetIndent"
    ∷ always "TVM_SETINSERTMARK" "设置树控件的插入标志,宏:TreeView_SetInsertMark"
    ∷ always "TVM_SETINSERTMARKCOLOR"
        "设置树控件的插入标志色(返回包含先前的插入标记色的COLORREF值),宏:TreeView_SetInsertMarkColor"
    ∷ always "TVM_SETITEMA" "设置树控件的项目,相关结构:TVITEM,宏:TreeView_SetItem"
    ∷ always "TVM_SETITEMW" "设置树控件的项目,相关结构:TVITEM,宏:TreeView_SetItem"
    ∷ always "TVM_SETITEMHEIGHT" "设置树控件的项目高度(像素)(返回项目先前的高度),宏:TreeView_SetItemHeight"
    ∷ always "TVM_SETSCROLLTIME" "设置树控件的最大滚动时间(毫秒),宏:TreeView_SetScrollTime"
    ∷ always "TVM_SETTEXTCOLOR" "设置树控件的文本颜色,宏:TreeView_SetTextColor"
    ∷ always "TVM_SETTOOLTIPS" "设置树控件的工具提示控件(句柄),宏:TreeView_SetToolTips"
    ∷ always "TVM_SETUNICODEFORMAT" "设置树控件的UNICODE格式标志,宏:TreeView_SetUnicodeFormat"
    ∷ always "TVM_SORTCHILDREN" "对树控件中指定父项的子项进行排序,宏:TreeView_SortChildren"
    ∷ always "TVM_SORTCHILDRENCB" "通过一个用来比较各项的回调函数对树控件进行排序,宏:TreeView_SortChildrenCB"
    ∷ always "TVN_BEGINDRAG" "树控件中鼠标左键拖放开始"
    ∷ always "TVN_BEGINLABELEDIT" "开始编辑项目的标签"
    ∷ always "TVN_BEGINRDRAG" "树控件中鼠标右键拖放开始"
    ∷ always "TVN_DELETEITEM" "删除树控件中的项目"
    ∷ always "TVN_ENDLABELEDIT" "允许用户编辑项目的标签"
    ∷ always "TVN_GETDISPINFO" "在需要得到树控件的某结点信息时发送(如得到结点的显示字符)"
    ∷ always "TVN_GETINFOTIP" "获取工具提示控件信息"
    ∷ always "TVN_ITEMEXPANDED" "树控件某结点已被展开或收缩,所用结构:NMTREEVIEW"
    ∷ []
